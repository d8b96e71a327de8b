-- ===== src/Scheduler.antt =====
-- mtsc/scheduler.py: `MTSCScheduler`, one module for each of its operations.
pub mod State
pub mod Admission
pub mod Allocation
pub mod Saves
pub mod Publication
pub mod Release
pub mod Lifecycle
pub mod TwoStage
