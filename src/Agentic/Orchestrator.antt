-- ===== src/Agentic/Orchestrator.antt =====
-- OrchestratorActor (agentic/orchestrator.go): the loop in which a language model uses tools.
pub mod State
pub mod Decisions
pub mod Calls
pub mod Compaction
pub mod Rounds
