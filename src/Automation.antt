-- ===== src/Automation.antt =====
-- src/automation.rs: the records of an operation that an agent works on, and its semantic state.
pub mod Records
pub mod Currency
pub mod States
mod Tests
