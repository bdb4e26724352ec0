-- ===== src/Write.antt =====
-- src/write.rs
pub mod Actions
pub mod Control
pub mod Guards
pub mod Answers
pub mod Fresh
pub mod Authoring
mod Tests
