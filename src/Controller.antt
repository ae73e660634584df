-- ===== src/Controller.antt =====
-- controller/reconcilers/deviceprocessdeployment_controller.go.
pub mod Env
pub mod Names
pub mod Labels
pub mod Requests
pub mod Apply
pub mod Cleanup
pub mod Status
pub mod Reconcile
pub mod Tests
