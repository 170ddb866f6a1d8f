-- ===== src/Forge.antt =====
-- The forge package: calls of forged APIs.
pub mod Token
pub mod TokenResponse
mod Tests
