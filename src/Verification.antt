-- ===== src/Verification.antt =====
-- internal/verification: the deterministic gate.
pub mod Report
pub mod Runner
pub mod Detect
