-- ===== src/Client.antt =====
-- pkg/client: HTTP clients of other services.
pub mod Http
pub mod Certificates
