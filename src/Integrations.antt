-- ===== src/Integrations.antt =====
-- src/anse_harness/integrations
pub mod GitHub
pub mod Mcp
pub mod Decisions
pub mod LocalDouble
