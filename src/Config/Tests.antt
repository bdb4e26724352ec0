-- ===== src/Config/Tests.antt =====
-- The file of the test in src/config.rs, and a configuration loaded from it.
use systemd_ops.Base.{
  ◌≤◌, ◌≡◌, refl, none, some, ◌∷◌, ◌++◌, Str, codes, str_eq, as_bytes, len, trim, starts_with,
  ends_with, split_once, lines, ok,
}
use systemd_ops.Config.{OpsConfig}
use systemd_ops.Json.{unwrap_or}
use systemd_ops.Systemd.Names.{user, system, manager_parse}
use systemd_ops.Systemd.Prefix.{parse_write_prefix}
use systemd_ops.Config.Load.{
  Environment, FileConfig, or_else, env_prefix, env_manager, env_u64, load_file, load_with_default,
  parse_toml, toml_lines, toml_line, is_skipped, set_key, unquote, parse_u64, digits_u64,
  check_prefix,
}
use systemd_ops.Config.Load.Laws.{IsValidPrefix, load_with_default-OpsConfig}

abbrev toml : Str
toml =
    codes "write_prefix = " ++ (34 ∷ (codes "managed-*" ++ (34 ∷ 10 ∷ (codes "plan_ttl_secs = 5"))))

abbrev no_variable : Environment
no_variable name = none

abbrev loaded : OpsConfig
loaded = record {
  manager = user;
  write_prefix = some (codes "managed-*");
  plan_ttl_secs = 30;
  state_dir = codes "/run";
}

abbrev Loads : Type 0
Loads =
    load_with_default no_variable (ok (some toml)) (codes "/run") (some user) none system
    ≡ ok loaded

loads : Loads
unfolding load_with_default env_prefix env_manager env_u64 load_file parse_toml toml_lines toml_line
    is_skipped set_key unquote parse_u64 digits_u64 check_prefix parse_write_prefix lines trim
    starts_with ends_with split_once str_eq manager_parse len as_bytes
loads = refl

load_with_default-OpsConfig_example :
    (file : FileConfig) × (load_file (ok (some toml)) ≡ ok file)
    × (30 ≤ 30)
    × (30 ≤ 86_400)
    × IsValidPrefix (some (codes "managed-*"))
    × (some (codes "managed-*") ≡ or_else (or_else none (env_prefix no_variable)) file.write_prefix)
    × (user
        ≡ unwrap_or (or_else (or_else (some user) (env_manager no_variable)) file.manager) system)
load_with_default-OpsConfig_example =
    load_with_default-OpsConfig no_variable (ok (some toml)) (codes "/run") (some user) none system
      loads
