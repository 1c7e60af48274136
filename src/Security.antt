-- ===== src/Security.antt =====
-- The security profile: src/anse_harness/security.
pub mod Matrix
pub mod Config
