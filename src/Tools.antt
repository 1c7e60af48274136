-- ===== src/Tools.antt =====
-- src/anse_harness/tools
pub mod McpRepoServer
pub mod Contracts
