-- ===== src/Cache.antt =====
-- pkg/util/cache: the caches of the services.
pub mod RefreshAhead
pub mod TimeoutCache
pub mod LruExpire
