-- ===== src/Operations/Spec.antt =====
-- The specification of an operation in src/operations.rs, and the JSON that its digest is taken of.
use systemd_ops.Base.{
  Bool, true, false, not, ◌||◌, Option, none, some, List, [], ◌∷◌, ◌++◌, map, if◌then◌else◌, Str,
  Bytes, codes,
}
use systemd_ops.Json.{Value, ℤ, null, bool, int, str, array, items, object, opt_str}
use systemd_ops.Operations.Fields.{
  Kind, simple, oneshot, oneshot_linger, Schedule, interval, calendar, is_some,
}
use systemd_ops.Sha256.{sha256_hex}

pub kind_str : Kind → Str
kind_str simple = codes "simple"
kind_str oneshot = codes "oneshot"
kind_str oneshot_linger = codes "oneshot-linger"

pub service_type : Kind → Str
service_type simple = codes "simple"
service_type oneshot = codes "oneshot"
service_type oneshot_linger = codes "oneshot"

pub record NormalizedSpec : Type 0 where
  pub unit : Str
  pub kind : Kind
  pub title : Option Str
  pub purpose : Option Str
  pub tags : List Str
  pub description : Str
  pub exec_path : Str
  pub exec_argv : List Str
  pub cwd : Option Str
  pub env : List (Str × Str)
  pub path : List Str
  pub environment_files : List Str
  pub after : List Str
  pub wants_network_online : Bool
  pub restart : Option Str
  pub nice : Option ℤ
  pub schedule : Option Schedule
  pub enabled : Bool
  pub start_now : Bool
  pub origin_cwd : Option Str
  pub origin_scope : Option Str
  pub origin_scope_root : Option Str
  pub created_at : Str

pub service_name : NormalizedSpec → Str
service_name spec = spec.unit ++ codes ".service"

abbrev pub timer_of : Option Schedule → Str → Option Str
timer_of none unit = none
timer_of (some schedule) unit = some (unit ++ codes ".timer")

pub timer_name : NormalizedSpec → Option Str
timer_name spec = timer_of spec.schedule spec.unit

abbrev pub is_installed : Kind → Bool
is_installed simple = true
is_installed oneshot = false
is_installed oneshot_linger = true

pub has_install : NormalizedSpec → Bool
has_install spec = is_some spec.schedule || is_installed spec.kind

abbrev pub or_else {ℓ} : {A : Type ℓ} → Option A → Option A → Option A
or_else none o = o
or_else (some a) o = some a

pub enable_unit : NormalizedSpec → Option Str
unfolding timer_name has_install service_name
enable_unit spec =
    if not spec.enabled
    then none
    else or_else (timer_name spec) (if has_install spec then some (service_name spec) else none)

pub start_unit : NormalizedSpec → Option Str
unfolding timer_name service_name
start_unit spec =
    if not spec.start_now then none else or_else (timer_name spec) (some (service_name spec))

abbrev pub schedule_json : Option Schedule → Value
schedule_json none = null
schedule_json (some (interval on_boot on_active on_inactive persistent accuracy)) = object (
    (codes "type", str (codes "interval"))
    ∷ (codes "on_boot_sec", str on_boot)
    ∷ (codes "on_unit_active_sec", opt_str on_active)
    ∷ (codes "on_unit_inactive_sec", opt_str on_inactive)
    ∷ (codes "persistent", bool persistent)
    ∷ (codes "accuracy_sec", opt_str accuracy)
    ∷ [])
schedule_json (some (calendar on_calendar persistent accuracy)) = object (
    (codes "type", str (codes "calendar"))
    ∷ (codes "on_calendar", str on_calendar)
    ∷ (codes "persistent", bool persistent)
    ∷ (codes "accuracy_sec", opt_str accuracy)
    ∷ [])

abbrev pub str_list : List Str → Value
str_list l = array (items (map str l))

abbrev pub env_field : Str × Str → Str × Value
env_field (k, v) = (k, str v)

abbrev pub opt_nice : Option ℤ → Value
opt_nice none = null
opt_nice (some n) = int n

abbrev pub spec_fields : NormalizedSpec → List (Str × Value)
spec_fields spec =
    (codes "after", str_list spec.after)
    ∷ (codes "cwd", opt_str spec.cwd)
    ∷ (codes "description", str spec.description)
    ∷ (codes "enabled", bool spec.enabled)
    ∷ (codes "env", object (map env_field spec.env))
    ∷ (codes "environment_files", str_list spec.environment_files)
    ∷ (
      codes "exec",
      object ((codes "argv", str_list spec.exec_argv) ∷ (codes "path", str spec.exec_path) ∷ []),
    )
    ∷ (codes "kind", str (kind_str spec.kind))
    ∷ (codes "nice", opt_nice spec.nice)
    ∷ (codes "path", str_list spec.path)
    ∷ (codes "purpose", opt_str spec.purpose)
    ∷ (codes "restart", opt_str spec.restart)
    ∷ (codes "schedule", schedule_json spec.schedule)
    ∷ (codes "start_now", bool spec.start_now)
    ∷ (codes "tags", str_list spec.tags)
    ∷ (codes "title", opt_str spec.title)
    ∷ (codes "unit", str spec.unit)
    ∷ (codes "wants_network_online", bool spec.wants_network_online)
    ∷ []

pub canonical_spec_json : NormalizedSpec → Value
canonical_spec_json spec = object (spec_fields spec)

-- `to_json`, which adds where and when the operation was made.
pub spec_json : NormalizedSpec → Value
spec_json spec = object (
    spec_fields spec
    ++ (codes "origin_cwd", opt_str spec.origin_cwd)
      ∷ (codes "origin_scope", opt_str spec.origin_scope)
      ∷ (codes "origin_scope_root", opt_str spec.origin_scope_root)
      ∷ (codes "created_at", str spec.created_at)
      ∷ [])

-- The text of a JSON value is serde_json's.
pub spec_sha : (Value → Bytes) → NormalizedSpec → Str
unfolding canonical_spec_json
spec_sha to_string spec = sha256_hex (to_string (canonical_spec_json spec))
