-- ===== src/Secretnat.antt =====
-- The secretnat package: secrets in texts for a language model are replaced by tokens, and back.
pub mod Mapping
pub mod Stream
mod Tests
