-- ===== src/DeepCopy.antt =====
-- api/v1alpha1/zz_generated.deepcopy.go: the deep copies of the API types, on values as they stand
-- in memory, where a pointer, a slice and a map have an address.
pub mod Memory
pub mod Copies
pub mod Separate
pub mod Library
pub mod Plain
pub mod Rpc
pub mod Geth
pub mod NodeConfig
pub mod NodeSpec
pub mod NodeStatus
pub mod NetworkConfig
pub mod NetworkParts
pub mod Resources
pub mod Scaffold
pub mod Objects
pub mod Types
pub mod Extent
pub mod Isolated
