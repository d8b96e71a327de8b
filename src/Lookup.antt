-- ===== src/Lookup.antt =====
-- mtsc/kv_cache_pool.py: how the scheduler asks the Store pool for the cached prefix of a prompt.
pub mod Bytes
pub mod Blob
pub mod Rpc
pub mod Client
pub mod Coordinator
pub mod Keys
pub mod Masks
pub mod EndToEnd
