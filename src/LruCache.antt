-- ===== src/LruCache.antt =====
-- `LRUcache` of src/lru_cache.h: a keyed cache with expiration, eviction and key blocking.
pub mod Defs
pub mod Invariant
pub mod Eviction
pub mod Adding
pub mod Blocking
pub mod Present
pub mod Reach
