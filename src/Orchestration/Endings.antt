-- ===== src/Orchestration/Endings.antt =====
-- How a run of Process (internal/orchestration/processor.go) ends, and what the job is then.
pub mod Terminal
pub mod Fuel
pub mod Returns
pub mod Path
pub mod Passed
