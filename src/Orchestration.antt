-- ===== src/Orchestration.antt =====
-- internal/orchestration: how a job is run.
pub mod Candidate
pub mod Diff
pub mod Env
pub mod Run
pub mod Actions
pub mod Stages
pub mod Attempts
pub mod Reviewing
pub mod Process
pub mod Stable
pub mod Endings
pub mod Choice
pub mod Gate
pub mod Recovery
pub mod Canceller
pub mod Sources
