-- ===== src/Reliability.antt =====
-- src/anse_harness/reliability
pub mod Records
pub mod Retries
pub mod Escalation
pub mod Injection
