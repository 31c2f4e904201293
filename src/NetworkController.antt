-- ===== src/NetworkController.antt =====
-- internal/controller/optimismnetwork_controller.go: the reconciler of OptimismNetwork objects.
pub mod Spec
pub mod L1
pub mod Templates
pub mod ConfigMaps
pub mod Reconcile
pub mod Coherent
pub mod Published
pub mod Footprint
pub mod Calls
pub mod Confined
pub mod Requeue
pub mod Converges
pub mod Written
pub mod Mounted
