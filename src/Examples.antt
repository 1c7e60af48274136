-- ===== src/Examples.antt =====
-- The properties at concrete values.
pub mod Artifacts
pub mod Boundary
pub mod Conversations
pub mod Decisions
pub mod Declared
pub mod Engine
pub mod Payloads
pub mod Policies
pub mod Profile
pub mod Reviews
pub mod Scripts
pub mod Servers
pub mod Stages
pub mod Texts
pub mod Traces
