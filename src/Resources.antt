-- ===== src/Resources.antt =====
-- pkg/resources: the StatefulSet and the Service that an OpNode asks for.
pub mod Objects
pub mod Config
pub mod Endpoint
pub mod Args
pub mod Pod
pub mod StatefulSet
pub mod Service
pub mod Mounts
pub mod Engine
pub mod Ports
