-- ===== src/Peercoord/Lifecycle.antt =====
-- The life of a task: the state machine that peercoord/engine.go implements.
pub mod Graph
pub mod Sound
pub mod Moving
pub mod Quiet
pub mod Keeping
pub mod Identity
pub mod Operations
pub mod Requests
pub mod Logs
pub mod Capacity
