-- ===== src/Token.antt =====
-- src/token.rs
pub mod Base64
pub mod Plan
pub mod Hex
mod Tests
