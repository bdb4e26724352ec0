-- ===== src/Config/Load.antt =====
-- The loading of the configuration in src/config.rs. The variables of the environment, the text of
-- the file and the state directory are arguments.
pub mod Laws
use systemd_ops.Base.{
  ℕ, zero, suc, ◌+◌, ◌-◌, ◌*◌, ◌/◌, ◌%◌, ◌^◌, ◌≤◌, ◌<◌, min, max, String, ◌≡◌, refl, sym, ap, ap₂,
  ◌∙◌, subst, ◌≢◌, ◌↔◌, ◌⊎◌, inl, inr, Bool, true, false, not, ◌&&◌, ◌||◌, Option, none, some, List,
  [], ◌∷◌, ◌++◌, map, reverse, arith, ltb, leb, ◌==◌, if◌then◌else◌, within, leb→le, ltb→lt, ==_iff,
  Bool-cases, Option-cases, length, get_or, take, drop, replicate, all, any, retain, All,
  length-append, length-take, length-drop, length-replicate, length-map, All-append, Str, Bytes,
  IsByte, codes, str_eq, str_eq_iff, str_eq_refl, utf8_char, as_bytes, len, is_empty,
  is_ascii_lower, is_ascii_upper, is_ascii_digit, is_ascii_alphanumeric, is_whitespace, contains,
  trim_start, trim_end, trim, strip_prefix, starts_with, ends_with, contains_str, split, split_once,
  lines, join, ascii_lower, push_front, Result, ok, err, ◌>>=◌, ◌>>◌, ensure, ok_or, all_below,
  all_below_sound, bind-eq-ok, Result-cases,
}
use systemd_ops.Config.{OpsConfig}
use systemd_ops.Json.{and_then, unwrap_or}
use systemd_ops.Systemd.Names.{Manager, manager_parse}
use systemd_ops.Systemd.Prefix.{parse_write_prefix}

-- `std::env::var(name).ok()`.
abbrev pub Environment : Type 0
Environment = Str → Option Str

-- `str::parse::<u64>`: digits, behind at most one plus sign, whose value is a `u64`.
abbrev pub digits_value : ℕ → Str → ℕ
digits_value acc [] = acc
digits_value acc (c ∷ s) = digits_value (acc * 10 + (c - b'0')) s

unfoldable pub digits_u64 : Str → Option ℕ
digits_u64 s =
    if not (is_empty s) && (all is_ascii_digit s && ltb (digits_value 0 s) (2 ^ 64))
    then some (digits_value 0 s)
    else none

unfoldable pub parse_u64 : Str → Option ℕ
parse_u64 [] = none
parse_u64 (c ∷ s) = if c == b'+' then digits_u64 s else digits_u64 (c ∷ s)

pub record FileConfig : Type 0 where
  pub manager : Option Manager
  pub write_prefix : Option Str
  pub plan_ttl_secs : Option ℕ

abbrev pub no_file : FileConfig
no_file = record { manager = none; write_prefix = none; plan_ttl_secs = none }

abbrev pub is_quoted_by : ℕ → Str → Bool
is_quoted_by q t = starts_with (q ∷ []) t && (ends_with (q ∷ []) t && leb 2 (len t))

unfoldable pub unquote : Str → Str
unquote s =
    let t = trim s in
    if is_quoted_by 34 t || is_quoted_by 39 t then take (length t - 2) (drop 1 t) else t

-- One setting of the file.
unfoldable pub set_key : FileConfig → Str → Str → FileConfig
set_key out key val =
    if str_eq key (codes "write_prefix") || str_eq key (codes "write-prefix")
    then (if is_empty val then out else record out { write_prefix = some val })
    else if str_eq key (codes "manager")
    then record out { manager = manager_parse val }
    else if str_eq key (codes "plan_ttl_secs") || str_eq key (codes "plan-ttl-secs")
    then record out { plan_ttl_secs = parse_u64 val }
    else out

unfoldable pub is_skipped : Str → Bool
is_skipped line = is_empty line || (starts_with (b'#' ∷ []) line || starts_with (b'[' ∷ []) line)

abbrev pub set_pair : FileConfig → Option (Str × Str) → FileConfig
set_pair out none = out
set_pair out (some (k, v)) = set_key out (trim k) (unquote (trim v))

unfoldable pub toml_line : FileConfig → Str → FileConfig
toml_line out raw =
    let line = trim raw in if is_skipped line then out else set_pair out (split_once b'=' line)

unfoldable pub toml_lines : FileConfig → List Str → FileConfig
toml_lines out [] = out
toml_lines out (l ∷ ls) = toml_lines (toml_line out l) ls

unfoldable pub parse_toml : Str → FileConfig
parse_toml text = toml_lines no_file (lines text)

-- The file that `load_file` finds: none, or its text, or the message of a failed reading.
unfoldable pub load_file : Result (Option Str) → Result FileConfig
load_file (err e) = err e
load_file (ok none) = ok no_file
load_file (ok (some text)) = ok (parse_toml text)

unfoldable pub env_prefix : Environment → Option Str
env_prefix env =
    and_then (env (codes "SYSTEMD_OPS_WRITE_PREFIX"))
      (λ s. if is_empty (trim s) then none else some (trim s))

unfoldable pub env_manager : Environment → Option Manager
env_manager env = and_then (env (codes "SYSTEMD_OPS_MANAGER")) (λ s. manager_parse (trim s))

unfoldable pub env_u64 : Environment → Str → Option ℕ
env_u64 env name = and_then (env name) (λ s. parse_u64 (trim s))

-- `Option::or`.
abbrev pub or_else {ℓ} : {A : Type ℓ} → Option A → Option A → Option A
or_else (some a) o = some a
or_else none o = o

abbrev pub clamp : ℕ → ℕ → ℕ → ℕ
clamp lo hi n = if ltb n lo then lo else if ltb hi n then hi else n

-- `if let Some(spec) = &write_prefix { parse_write_prefix(spec)?; }`
unfoldable pub check_prefix : Option Str → Result (Unit {0})
check_prefix none = ok tt
check_prefix (some spec) = do globs ← parse_write_prefix spec; ok tt

unfoldable pub load_with_default :
    Environment
    → Result (Option Str)
    → Str
    → Option Manager
    → Option Str
    → Manager
    → Result OpsConfig
load_with_default env text state_dir manager write_prefix default_manager = do
  file ← load_file text
  let prefix = or_else (or_else write_prefix (env_prefix env)) file.write_prefix
  check_prefix prefix
  ok (record {
    manager = unwrap_or (or_else (or_else manager (env_manager env)) file.manager) default_manager;
    write_prefix = prefix;
    plan_ttl_secs = clamp 30 86_400 (
        unwrap_or (or_else (env_u64 env (codes "SYSTEMD_OPS_PLAN_TTL_SECS")) file.plan_ttl_secs)
          600);
    state_dir = state_dir;
  })
