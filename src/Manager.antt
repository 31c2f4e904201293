-- ===== src/Manager.antt =====
-- cmd/main.go, with the methods SetupWithManager of the five controllers in internal/controller.
pub mod Options
pub mod Controllers
pub mod Main
pub mod Tls
pub mod Trace
pub mod Rbac
pub mod Permissions
pub mod Watched
