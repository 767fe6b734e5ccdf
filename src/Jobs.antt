-- ===== src/Jobs.antt =====
-- internal/jobs: the job record and its life.
pub mod Transitions
pub mod Status
pub mod Lifecycle
pub mod Repository
pub mod Request
