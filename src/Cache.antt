-- ===== src/Cache.antt =====
-- cache.go: the cache of compiled statements.
pub mod Shard
pub mod Plans
pub mod Bounds
pub mod Elements
pub mod Sound
