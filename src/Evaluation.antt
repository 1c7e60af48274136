-- ===== src/Evaluation.antt =====
-- src/anse_harness/evaluation
pub mod Dataset
pub mod Graders
pub mod Runner
pub mod Report
pub mod Inspect
