-- ===== src/Context.antt =====
-- src/anse_harness/context
pub mod Tokens
pub mod Packet
