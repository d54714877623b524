-- ===== src/Server.antt =====
-- pkg/server: what the API servers share.
pub mod Saga
pub mod Conversion
pub mod Errors
pub mod Middleware
pub mod Ownership
pub mod Selector
pub mod Logging
pub mod Tracing
pub mod Capture
pub mod Json
