-- ===== src/Tests.antt =====
-- Concrete runs of the development.
mod Caches
mod Provisioning
mod Clusters
mod Managing
mod Serving
mod Deploying
mod Remotes
mod Clients
mod Checking
mod Settling
