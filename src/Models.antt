-- ===== src/Models.antt =====
-- src/anse_harness/models
pub mod Types
pub mod Errors
pub mod Replay
pub mod Calls
pub mod Scripted
pub mod Factory
pub mod Live
