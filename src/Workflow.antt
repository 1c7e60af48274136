-- ===== src/Workflow.antt =====
-- src/anse_harness/workflows
pub mod State
pub mod Plan
pub mod Graph
pub mod Orchestrator
pub mod Engine
pub mod Comparison
pub mod Integration
