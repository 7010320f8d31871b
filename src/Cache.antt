-- ===== src/Cache.antt =====
-- internal/cache: the LRU backend of cache.go and the cache policy of policy.go.
pub mod Backend
pub mod Policy
