-- ===== src/Pool.antt =====
-- mtsc/kv_cache_pool.py: the Store side of a worker.
pub mod Saves
pub mod Chunks
pub mod Loads
pub mod Handover
pub mod Io
