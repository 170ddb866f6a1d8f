-- ===== src/Peercoord/Effects.antt =====
-- What an operation of peercoord/engine.go may leave alone, operation by operation.
pub mod Frame
pub mod Shape
pub mod Moves
pub mod Total
pub mod Outline
