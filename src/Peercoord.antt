-- ===== src/Peercoord.antt =====
-- The coordination protocol between daemons: peercoord/types.go and peercoord/engine.go.
pub mod Types
pub mod Text
pub mod Transition
pub mod Registry
pub mod Board
pub mod Leaders
pub mod Tasks
pub mod Work
pub mod Execution
pub mod Engine
mod Fixture
mod Tests
pub mod Effects
pub mod Lifecycle
pub mod Authority
