-- ===== src/Tracing.antt =====
-- src/anse_harness/tracing: trace events, their redaction, and the recorders that number them.
pub mod Event
pub mod Redaction
pub mod Recorder
pub mod File
