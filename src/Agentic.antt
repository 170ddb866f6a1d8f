-- ===== src/Agentic.antt =====
-- The agentic package: the loop in which a language model uses tools.
pub mod ReadTracker
pub mod ApprovalMemory
pub mod Permissions
pub mod Policy
pub mod PatchParse
pub mod Grounding
pub mod OutputShape
pub mod SessionMemory
pub mod TurnModel
pub mod Orchestrator
mod Tests
mod OrchestratorTests
