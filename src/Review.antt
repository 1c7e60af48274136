-- ===== src/Review.antt =====
-- src/anse_harness/review
pub mod Findings
