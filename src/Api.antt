-- ===== src/Api.antt =====
-- The API types (api/v1alpha1): what the custom resources hold. A Go pointer is an `Option`, a Go
-- map a list of pairs with distinct keys, an int32 or int64 a `ℤ`, a time or a duration a `ℤ` of
-- nanoseconds. `Q` stands for resource.Quantity, which is not the repository's own.
pub mod Meta
pub mod Node
pub mod Network
pub mod Scaffold
