-- ===== src/Tests.antt =====
-- The theorems applied to concrete objects, and runs of the operations.
mod Samples
mod World
mod Controllers
mod Objects
mod Lookup
mod Memory
mod Converges
mod Places
mod Server
mod System
mod Interleaved
mod Progress
