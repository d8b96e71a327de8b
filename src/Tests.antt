-- ===== src/Tests.antt =====
-- The theorems at concrete inputs, and runs of the code.
pub mod Data
pub mod Scheduler
pub mod Worker
pub mod Transfer
pub mod Pool
pub mod Sender
pub mod Receiver
pub mod Proxy
pub mod Registration
pub mod EffectiveTp
pub mod Lookup
pub mod Handle
pub mod Io
