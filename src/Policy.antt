-- ===== src/Policy.antt =====
-- src/anse_harness/policy
pub mod Commands
