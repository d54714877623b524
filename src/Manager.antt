-- ===== src/Manager.antt =====
-- pkg/manager: the reconciler and the resource references.
pub mod Client
pub mod Reference
pub mod Condition
pub mod Reconcile
pub mod Readiness
pub mod Startup
