-- ===== src/Messaging.antt =====
-- pkg/messaging: what a service does with the events of another service's resources.
pub mod CascadingDelete
pub mod Kubernetes
