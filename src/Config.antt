-- ===== src/Config.antt =====
-- src/config.rs
pub mod Load
mod Tests
use systemd_ops.Base.{ℕ, Option, Str}
use systemd_ops.Systemd.Names.{Manager}

pub record OpsConfig : Type 0 where
  pub manager : Manager
  pub write_prefix : Option Str
  pub plan_ttl_secs : ℕ
  pub state_dir : Str
