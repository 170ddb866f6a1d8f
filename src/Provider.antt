-- ===== src/Provider.antt =====
-- The provider package: what is sent to a language model.
pub mod Turns
pub mod Pairing
pub mod NeutralTurns
pub mod Retry
mod Tests
mod RetryTests
