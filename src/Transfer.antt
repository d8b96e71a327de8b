-- ===== src/Transfer.antt =====
-- mtsc/kv_transfer.py: how a prefill worker writes its blocks into a decode worker's memory.
pub mod Regions
pub mod Runs
pub mod Request
pub mod Sender
pub mod Bootstrap
pub mod Receiver
