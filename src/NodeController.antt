-- ===== src/NodeController.antt =====
-- internal/controller/opnode_controller.go: the reconciler of OpNode objects.
pub mod Spec
pub mod Secrets
pub mod Objects
pub mod Status
pub mod Reconcile
pub mod Coherent
pub mod Published
pub mod Keys
pub mod Written
pub mod Converges
pub mod Guards
pub mod Footprint
pub mod Calls
pub mod Confined
pub mod Requeue
pub mod Progress
pub mod Serves
