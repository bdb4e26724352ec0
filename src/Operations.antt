-- ===== src/Operations.antt =====
-- src/operations.rs, one child for each group of its functions.
pub mod Exec
pub mod Health
pub mod Fields
pub mod Context
mod Tests
pub mod Spec
pub mod Render
pub mod Meta
pub mod ParseSpec
pub mod Author
