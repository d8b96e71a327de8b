-- ===== src/Worker.antt =====
-- mtsc/worker.py: `MTSCWorker`, which runs the operations of each step and advances loads through
-- their two stages.
pub mod State
pub mod Loads
pub mod Finished
