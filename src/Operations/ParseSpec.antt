-- ===== src/Operations/ParseSpec.antt =====
-- `parse_spec` of src/operations.rs: the specification that a caller asks for, checked.
pub mod Checks
pub mod Laws
mod Tests
use systemd_ops.Base.{
  ℕ, zero, suc, ◌+◌, ◌-◌, ◌*◌, ◌/◌, ◌%◌, ◌^◌, ◌≤◌, ◌<◌, min, max, String, ◌≡◌, refl, sym, ap, ap₂,
  ◌∙◌, subst, ◌≢◌, ◌↔◌, ◌⊎◌, inl, inr, Bool, true, false, not, ◌&&◌, ◌||◌, Option, none, some, List,
  [], ◌∷◌, ◌++◌, map, reverse, arith, ltb, leb, ◌==◌, if◌then◌else◌, within, leb→le, ltb→lt, ==_iff,
  Bool-cases, Option-cases, length, get_or, take, drop, replicate, all, any, retain, All,
  length-append, length-take, length-drop, length-replicate, length-map, All-append, Str, Bytes,
  IsByte, codes, str_eq, str_eq_iff, str_eq_refl, utf8_char, as_bytes, len, is_empty,
  is_ascii_lower, is_ascii_upper, is_ascii_digit, is_ascii_alphanumeric, is_whitespace, contains,
  trim_start, trim_end, trim, strip_prefix, starts_with, ends_with, contains_str, split, split_once,
  lines, join, ascii_lower, push_front, Result, ok, err, ◌>>=◌, ◌>>◌, ensure, ok_or, all_below,
  all_below_sound, bind-eq-ok, if-eq-ok, ensure-eq-ok, ok-injective, Result-cases,
}
use systemd_ops.Files.{Disk, Node, metadata, node_is_file, is_dir}
use systemd_ops.Json.{
  Value, Fields, ℤ, pos, negsuc, null, bool, int, float, str, array, obj, field, end, object, get,
  get_str, as_str, as_bool, as_i64, and_then, unwrap_or,
}
use systemd_ops.Operations.Context.{validate_stem, write_prefix_label, normalize_cwd}
use systemd_ops.Operations.Fields.{
  Kind, simple, oneshot, oneshot_linger, kind_parse, Schedule, validate_ident, text_field,
  parse_tags, parse_string_list, parse_schedule, is_obj,
}
use systemd_ops.Operations.Meta.{insert_env}
use systemd_ops.Operations.Render.{network_online}
use systemd_ops.Operations.Spec.{NormalizedSpec, or_else}
use systemd_ops.Scope.Discovery.{Platform, discover}
use systemd_ops.Scope.Manifest.{ScopeManifest}
use systemd_ops.Systemd.Names.{validate_unit_name}
use systemd_ops.Systemd.Prefix.{write_unit_allowed}

-- What the code reads besides its arguments: the write prefix, the files, and the time.
pub record Context : Type 0 where
  pub prefix : Option (List Str)
  pub platform : Platform
  pub disk : Disk
  pub now_rfc3339 : Str

abbrev pub reached : Str → Str → Result Node → Result (Unit {0})
reached label path (ok node) =
    ensure (node_is_file (some node)) (label ++ (codes " '" ++ (path ++ codes "' is not a file")))
reached label path (err e) =
    err (label ++ (codes " '" ++ (path ++ (codes "' is not reachable: " ++ e))))

abbrev pub without_break : Str → Bool
without_break s = not (contains s 10) && not (contains s 0)

pub validate_abs_path : Disk → Str → Str → Bool → Result (Unit {0})
validate_abs_path disk label path must_exist = do
  ensure (not (is_empty path) && leb (len path) 512) (label ++ codes " must be 1..512 characters")
  ensure (starts_with (codes "/") path) (label ++ codes " must be an absolute path")
  ensure (without_break path) (label ++ codes " must not contain newlines")
  if must_exist then reached label path (metadata disk path) else ok tt

pub check_each : (Str → Result (Unit {0})) → List Str → Result (Unit {0})
check_each check [] = ok tt
check_each check (s ∷ ss) = do check s; check_each check ss

abbrev pub check_arg : Str → Result (Unit {0})
check_arg arg =
    ensure (without_break arg) (codes "spec.exec.argv entries cannot contain newlines or NUL")

abbrev pub check_path_entry : Str → Result (Unit {0})
check_path_entry p =
    ensure (starts_with (codes "/") p)
      (codes "spec.path entries must be absolute; got '" ++ (p ++ codes "'"))

abbrev pub is_allowed_dep : Option (List Str) → Str → Bool
is_allowed_dep prefix dep =
    str_eq dep network_online
    || (str_eq dep (codes "default.target")
        || (str_eq dep (codes "timers.target") || write_unit_allowed prefix dep))

pub check_dep : Option (List Str) → Str → Result (Unit {0})
check_dep prefix dep = do
  validate_unit_name dep
  ensure (is_allowed_dep prefix dep) (
      codes
        "spec.after may name network-online.target, default.target, timers.target, or units matching '"
      ++ (write_prefix_label prefix ++ (codes "'; refused '" ++ (dep ++ codes "'"))))

pub parse_cwd : Disk → Option Str → Result (Option Str)
parse_cwd disk none = ok none
parse_cwd disk (some s) = do
  n ← normalize_cwd s
  ensure (is_dir disk n) (codes "spec.cwd '" ++ (n ++ codes "' is not a directory"))
  ok (some n)

abbrev pub is_env_value : Str → Bool
is_env_value s = leb (len s) 1_024 && without_break s

pub parse_env_fields : Fields → List (Str × Str) → Result (List (Str × Str))
parse_env_fields end env = ok env
parse_env_fields (field k v fs) env = do
  validate_ident (codes "spec.env key") k
  text ← ok_or (as_str v) (codes "spec.env." ++ (k ++ codes " must be a string"))
  ensure (is_env_value text)
      (codes "spec.env." ++ (k ++ codes " must be 0..1024 characters with no newlines"))
  parse_env_fields fs (insert_env k text env)

abbrev pub count_fields : Fields → ℕ
count_fields end = 0
count_fields (field k v fs) = suc (count_fields fs)

pub parse_env : Option Value → Result (List (Str × Str))
parse_env (some (obj fs)) = do
  ensure (leb (count_fields fs) 32) (codes "spec.env is limited to 32 entries")
  parse_env_fields fs []
parse_env _ = ok []

abbrev pub is_restart : Str → Bool
is_restart s = str_eq s (codes "no") || (str_eq s (codes "on-failure") || str_eq s (codes "always"))

pub restart_of : Kind → Str → Result (Option Str)
restart_of simple s =
    if is_restart s
    then ok (some s)
    else err (codes "unknown spec.restart '" ++ (s ++ codes "' (no, on-failure, always)"))
restart_of kind s =
    if str_eq s (codes "no")
    then ok none
    else err (codes "spec.restart is only valid on simple operations; got '" ++ (s ++ codes "'"))

pub parse_restart : Option Str → Kind → Result (Option Str)
parse_restart none kind = ok none
parse_restart (some s) kind = restart_of kind s

abbrev pub is_nice : ℤ → Bool
is_nice (pos n) = leb n 19
is_nice (negsuc n) = ltb n 20

pub nice_of : Option ℤ → Result (Option ℤ)
nice_of none = err (codes "spec.nice must be an integer")
nice_of (some n) = do ensure (is_nice n) (codes "spec.nice must be -20..19"); ok (some n)

pub parse_nice : Option Value → Result (Option ℤ)
parse_nice none = ok none
parse_nice (some null) = ok none
parse_nice (some v) = nice_of (as_i64 v)

abbrev pub stamp : NormalizedSpec → Result ScopeManifest → NormalizedSpec
stamp spec (ok manifest) = record spec {
  origin_scope = some manifest.id;
  origin_scope_root = some manifest.root;
}
stamp spec (err e) = spec

abbrev pub stamp_at : Context → NormalizedSpec → Option Str → NormalizedSpec
stamp_at ctx spec none = spec
stamp_at ctx spec (some cwd) = stamp spec (discover ctx.platform ctx.disk cwd)

pub stamp_origin_scope : Context → NormalizedSpec → NormalizedSpec
stamp_origin_scope ctx spec = stamp_at ctx spec spec.origin_cwd

abbrev pub object_or : Option Value → Str → Result Value
object_or (some (obj fs)) message = ok (obj fs)
object_or _ message = err message

-- What the parts of `parse_spec` read, one after the other.
pub record CommandPart : Type 0 where
  pub unit : Str
  pub kind : Kind
  pub exec_path : Str
  pub exec_argv : List Str
  pub cwd : Option Str
  pub env : List (Str × Str)

pub record ListsPart : Type 0 where
  pub path : List Str
  pub environment_files : List Str
  pub after : List Str

pub record PolicyPart : Type 0 where
  pub restart : Option Str
  pub nice : Option ℤ
  pub schedule : Option Schedule

pub record TextPart : Type 0 where
  pub title : Option Str
  pub purpose : Option Str
  pub tags : List Str
  pub description : Option Str

pub command_of : Context → Value → Value → Result CommandPart
command_of ctx args spec = do
  unit ←
      ok_or (or_else (get_str spec (codes "unit")) (get_str args (codes "unit")))
        (codes "spec.unit is required")
  validate_stem ctx.prefix unit
  kind_text ← ok_or (get_str spec (codes "kind")) (codes "spec.kind is required")
  kind ← kind_parse kind_text
  exec ← object_or (get spec (codes "exec")) (codes "spec.exec is required")
  exec_path ← ok_or (get_str exec (codes "path")) (codes "spec.exec.path is required")
  validate_abs_path ctx.disk (codes "spec.exec.path") exec_path true
  exec_argv ← parse_string_list (codes "spec.exec.argv") (get exec (codes "argv"))
  check_each check_arg exec_argv
  cwd ← parse_cwd ctx.disk (get_str spec (codes "cwd"))
  env ← parse_env (get spec (codes "env"))
  ok (record {
    unit = unit;
    kind = kind;
    exec_path = exec_path;
    exec_argv = exec_argv;
    cwd = cwd;
    env = env;
  })

pub lists_of : Context → Value → Result ListsPart
lists_of ctx spec = do
  path ← parse_string_list (codes "spec.path") (get spec (codes "path"))
  check_each check_path_entry path
  environment_files ←
      parse_string_list (codes "spec.environment_files") (get spec (codes "environment_files"))
  check_each (λ f. validate_abs_path ctx.disk (codes "spec.environment_files") f true)
      environment_files
  after ← parse_string_list (codes "spec.after") (get spec (codes "after"))
  check_each (check_dep ctx.prefix) after
  ok (record { path = path; environment_files = environment_files; after = after })

pub policy_of : Value → Kind → Result PolicyPart
policy_of spec kind = do
  restart ← parse_restart (get_str spec (codes "restart")) kind
  nice ← parse_nice (get spec (codes "nice"))
  schedule ← parse_schedule (get spec (codes "schedule")) kind
  ok (record { restart = restart; nice = nice; schedule = schedule })

pub text_of : Value → Result TextPart
text_of spec = do
  title ← text_field (codes "spec.title") (get_str spec (codes "title")) 200 (codes "200")
  purpose ← text_field (codes "spec.purpose") (get_str spec (codes "purpose")) 500 (codes "500")
  tags ← parse_tags (get spec (codes "tags"))
  description ←
      text_field (codes "spec.description") (get_str spec (codes "description")) 200 (codes "200")
  ok (record { title = title; purpose = purpose; tags = tags; description = description })

abbrev pub flag_of : Value → Str → Bool → Bool
flag_of spec key absent = unwrap_or (and_then (get spec key) as_bool) absent

pub join_parts :
    Context
    → Value
    → CommandPart
    → ListsPart
    → PolicyPart
    → TextPart
    → Option Str
    → Option Str
    → NormalizedSpec
join_parts ctx spec c l p t origin_cwd created_at = record {
  unit = c.unit;
  kind = c.kind;
  title = t.title;
  purpose = t.purpose;
  tags = t.tags;
  description = unwrap_or (or_else t.description t.title) c.unit;
  exec_path = c.exec_path;
  exec_argv = c.exec_argv;
  cwd = c.cwd;
  env = c.env;
  path = l.path;
  environment_files = l.environment_files;
  after = l.after;
  wants_network_online = flag_of spec (codes "wants_network_online") false;
  restart = p.restart;
  nice = p.nice;
  schedule = p.schedule;
  enabled = flag_of spec (codes "enabled") true;
  start_now = flag_of spec (codes "start_now") false;
  origin_cwd = origin_cwd;
  origin_scope = none;
  origin_scope_root = none;
  created_at = unwrap_or created_at ctx.now_rfc3339;
}

pub spec_of : Context → Value → Value → Option Str → Option Str → Result NormalizedSpec
spec_of ctx args spec origin_cwd created_at = do
  c ← command_of ctx args spec
  l ← lists_of ctx spec
  p ← policy_of spec c.kind
  t ← text_of spec
  ok (stamp_origin_scope ctx (join_parts ctx spec c l p t origin_cwd created_at))

pub parse_spec : Context → Value → Option Str → Option Str → Result NormalizedSpec
unfolding spec_of
parse_spec ctx args origin_cwd created_at = do
  spec ← ok_or (get args (codes "spec")) (codes "missing required argument: spec")
  ensure (is_obj spec) (codes "spec must be an object")
  spec_of ctx args spec origin_cwd created_at

abbrev pub option_or {ℓ} : {A : Type ℓ} → Option A → Option A → Option A
option_or (some a) o = some a
option_or none o = o

-- `from_json`, of a specification that a plan holds.
pub spec_from_json : Context → Value → Result NormalizedSpec
unfolding parse_spec
spec_from_json ctx v = do
  spec ←
      parse_spec ctx (object ((codes "spec", v) ∷ [])) (get_str v (codes "origin_cwd"))
        (get_str v (codes "created_at"))
  ok (record spec {
    origin_scope = option_or (get_str v (codes "origin_scope")) spec.origin_scope;
    origin_scope_root = option_or (get_str v (codes "origin_scope_root")) spec.origin_scope_root;
  })
