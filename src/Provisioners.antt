-- ===== src/Provisioners.antt =====
-- pkg/provisioners: the error vocabulary, the provisioner interface and its combinators.
pub mod Errors
pub mod Interface
pub mod Serial
pub mod Conditional
pub mod Concurrent
pub mod Application
pub mod Context
pub mod RemoteCluster
pub mod Resource
pub mod Log
pub mod Namespace
pub mod Progress
pub mod Scheduling
