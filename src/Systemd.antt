-- ===== src/Systemd.antt =====
-- src/systemd.rs, one child for each group of its functions.
pub mod Glob
pub mod Clock
pub mod Names
pub mod Grants
pub mod Prefix
pub mod Runs
pub mod Units
pub mod Boot
pub mod Blocks
mod Tests
