-- ===== src/Peercoord/Authority.antt =====
-- Who may do what on the board (peercoord/engine.go).
pub mod Terms
pub mod Fencing
pub mod Credentials
pub mod Events
pub mod Claims
