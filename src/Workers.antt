-- ===== src/Workers.antt =====
-- src/anse_harness/workers
pub mod Contract
pub mod Tasks
