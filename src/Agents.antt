-- ===== src/Agents.antt =====
-- internal/agents: the planner, the implementor and the reviewer.
pub mod Types
pub mod Implementor
pub mod Model
pub mod Calls
