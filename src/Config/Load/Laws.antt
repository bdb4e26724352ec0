-- ===== src/Config/Load/Laws.antt =====
-- What a loaded configuration is.
use systemd_ops.Base.{
  ℕ, ◌≤◌, ◌≡◌, sym, subst, Option, none, some, List, arith, Str, codes, Result, ok, bind-eq-ok,
}
use systemd_ops.Config.{OpsConfig}
use systemd_ops.Json.{unwrap_or}
use systemd_ops.Systemd.Names.{Manager}
use systemd_ops.Systemd.Prefix.{parse_write_prefix}
use systemd_ops.Config.Load.{
  Environment, FileConfig, or_else, clamp, env_prefix, env_manager, env_u64, load_file,
  check_prefix, load_with_default,
}

clamp_bounds : (n : ℕ) → (30 ≤ clamp 30 86_400 n) × (clamp 30 86_400 n ≤ 86_400)
clamp_bounds n = ground arith

-- A prefix that is valid, where there is one.
abbrev pub IsValidPrefix : Option Str → Type 0
IsValidPrefix none = Unit
IsValidPrefix (some spec) = (globs : List Str) × (parse_write_prefix spec ≡ ok globs)

check_prefix-IsValidPrefix : (o : Option Str) → check_prefix o ≡ ok tt → IsValidPrefix o
unfolding check_prefix
check_prefix-IsValidPrefix none h = tt
check_prefix-IsValidPrefix (some spec) h =
    let (globs, e, h1) = bind-eq-ok (parse_write_prefix spec) _ h in (globs, e)

-- A configuration that is loaded has a lifetime of plans between 30 seconds and a day, a valid write
-- prefix or none, and takes manager and prefix from the argument before the environment before the
-- file.
pub load_with_default-OpsConfig :
    (env : Environment) (text : Result (Option Str)) (state_dir : Str) (manager : Option Manager)
    (write_prefix : Option Str) (default_manager : Manager) {cfg : OpsConfig}
    → load_with_default env text state_dir manager write_prefix default_manager ≡ ok cfg
    → (file : FileConfig) × (load_file text ≡ ok file)
      × (30 ≤ cfg.plan_ttl_secs)
      × (cfg.plan_ttl_secs ≤ 86_400)
      × IsValidPrefix cfg.write_prefix
      × (cfg.write_prefix ≡ or_else (or_else write_prefix (env_prefix env)) file.write_prefix)
      × (cfg.manager
          ≡ unwrap_or (or_else (or_else manager (env_manager env)) file.manager) default_manager)
unfolding load_with_default
load_with_default-OpsConfig env text state_dir manager write_prefix default_manager {cfg} h =
    let (file, e, h1) = bind-eq-ok (load_file text) _ h in
    let (u, v, h2) =
      bind-eq-ok (check_prefix (or_else (or_else write_prefix (env_prefix env)) file.write_prefix))
        _ h1 in
    let b = clamp_bounds (
      unwrap_or (or_else (env_u64 env (codes "SYSTEMD_OPS_PLAN_TTL_SECS")) file.plan_ttl_secs)
        600) in
    let same : or_else (or_else write_prefix (env_prefix env)) file.write_prefix
        ≡ cfg.write_prefix =
      cc in
    (
      file,
      e,
      ground (arith, b, h2),
      ground (arith, b, h2),
      subst IsValidPrefix same (check_prefix-IsValidPrefix _ v),
      sym same,
      cc,
    )
