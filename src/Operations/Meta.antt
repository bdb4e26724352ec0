-- ===== src/Operations/Meta.antt =====
-- The reading of unit files in src/operations.rs (`parse_meta`), and what may be edited of them.
use systemd_ops.Base.{
  ℕ, Bool, true, false, not, ◌&&◌, ◌||◌, Option, none, some, List, [], ◌∷◌, ◌++◌, map, ◌==◌,
  if◌then◌else◌, any, retain, Str, codes, str_eq, is_empty, is_whitespace, trim, strip_prefix,
  starts_with, contains_str, split, split_once, lines, ascii_lower,
}
use systemd_ops.Json.{Value, ℤ, null, bool, str, object, opt_str}
use systemd_ops.Operations.Context.{strip_suffix}
use systemd_ops.Operations.Exec.{split_exec}
use systemd_ops.Operations.Fields.{is_some}
use systemd_ops.Operations.Health.{enablement_is_on}
use systemd_ops.Operations.Spec.{or_else, str_list, env_field, opt_nice}
use systemd_ops.Operations.Render.{managed_marker, network_online, is_nil}
use systemd_ops.Scope.Manifest.{text_ltb}

pub record FileMeta : Type 0 where
  pub managed : Bool
  pub spec_sha : Option Str
  pub title : Option Str
  pub purpose : Option Str
  pub tags : List Str
  pub origin_cwd : Option Str
  pub origin_scope : Option Str
  pub origin_scope_root : Option Str
  pub created_at : Option Str
  pub service_type : Option Str
  pub remain_after_exit : Bool
  pub description : Option Str
  pub exec_start : Option Str
  pub working_directory : Option Str
  pub on_calendar : Option Str
  pub on_boot_sec : Option Str
  pub on_unit_active_sec : Option Str
  pub on_unit_inactive_sec : Option Str
  pub persistent : Option Bool
  pub accuracy_sec : Option Str
  pub env : List (Str × Str)
  pub path : List Str
  pub environment_files : List Str
  pub after : List Str
  pub wants_network_online : Bool
  pub restart : Option Str
  pub nice : Option ℤ

abbrev pub default_meta : FileMeta
default_meta = record {
  managed = false;
  spec_sha = none;
  title = none;
  purpose = none;
  tags = [];
  origin_cwd = none;
  origin_scope = none;
  origin_scope_root = none;
  created_at = none;
  service_type = none;
  remain_after_exit = false;
  description = none;
  exec_start = none;
  working_directory = none;
  on_calendar = none;
  on_boot_sec = none;
  on_unit_active_sec = none;
  on_unit_inactive_sec = none;
  persistent = none;
  accuracy_sec = none;
  env = [];
  path = [];
  environment_files = [];
  after = [];
  wants_network_online = false;
  restart = none;
  nice = none;
}

-- `map(str::trim)` and `map(|s| ..)` of options.
abbrev pub trim_option : Option Str → Option Str
trim_option none = none
trim_option (some s) = some (trim s)

pub comment_field : Str → Str → Option Str
comment_field t name = trim_option (
    or_else (strip_prefix (codes "# systemd-ops-" ++ (name ++ codes ":")) t)
      (strip_prefix (codes "# managed-" ++ (name ++ codes ":")) t))

pub is_managed_marker : Str → Bool
is_managed_marker t = str_eq t managed_marker

-- `eq_ignore_ascii_case`.
pub same_ignoring_case : Str → Str → Bool
same_ignoring_case s t = str_eq (map ascii_lower s) (map ascii_lower t)

-- `s.replace(from, to)` of a pair of characters.
pub replace_pair : ℕ → ℕ → Str → Str → Str
replace_pair a b to [] = []
replace_pair a b to (c ∷ []) = c ∷ []
replace_pair a b to (c ∷ d ∷ s) = elim (c == a && d == b) [
  | true ↦ to ++ replace_pair a b to s
  | false ↦ c ∷ replace_pair a b to (d ∷ s)
]

abbrev pub inner_of : Str → Option Str → Str
inner_of t none = t
inner_of t (some inner) =
    replace_pair 92 b'$' (b'$' ∷ [])
      (replace_pair 92 34 (34 ∷ []) (replace_pair 92 92 (92 ∷ []) inner))

abbrev pub unquoted : Str → Option Str → Option Str
unquoted t none = none
unquoted t (some r) = strip_suffix (34 ∷ []) r

pub unquote_env_value : Str → Str
unfolding replace_pair
unquote_env_value s = inner_of (trim s) (unquoted (trim s) (strip_prefix (34 ∷ []) (trim s)))

-- `BTreeMap::insert`, where the keys ascend.
pub insert_env : Str → Str → List (Str × Str) → List (Str × Str)
insert_env k v [] = (k, v) ∷ []
insert_env k v ((l, w) ∷ env) =
    let rest = insert_env k v env in
    if str_eq l k
    then (k, v) ∷ env
    else if text_ltb l k
    then (l, w) ∷ rest
    else (k, v) ∷ (l, w) ∷ env

abbrev pub assign_env : FileMeta → Option (Str × Str) → FileMeta
assign_env meta none = meta
assign_env meta (some (k, v)) =
    if str_eq k (codes "PATH") && is_nil meta.path
    then record meta { path = split b':' v }
    else record meta { env = insert_env k v meta.env }

pub parse_environment_assignment : FileMeta → Str → FileMeta
parse_environment_assignment meta rest = assign_env meta (split_once b'=' (unquote_env_value rest))

-- `rest.split_whitespace()`, from the word read so far.
abbrev pub push_word : Str → List Str → List Str
push_word [] ws = ws
push_word (c ∷ cur) ws = (c ∷ cur) ∷ ws

pub words_from : Str → Str → List Str
words_from cur [] = push_word cur []
words_from cur (c ∷ s) =
    let here = words_from (cur ++ c ∷ []) s in
    let next = words_from [] s in if is_whitespace c then push_word cur next else here

pub push_after : List Str → List Str → List Str
push_after after [] = after
push_after after (dep ∷ deps) =
    push_after (if any (λ a. str_eq a dep) after then after else after ++ dep ∷ []) deps

pub tags_of : Str → List Str
tags_of rest = retain (λ s. not (is_empty s)) (map trim (split b',' rest))

abbrev pub set_description : FileMeta → Option Str → Str → FileMeta
set_description meta none text = record meta { description = some text }
set_description meta (some d) text = meta

abbrev pub set_nice : FileMeta → Option ℤ → FileMeta
set_nice meta none = meta
set_nice meta (some n) = record meta { nice = some n }

-- What a line with a prefix does with its rest.
pub record Field : Type 0 where
  pub rest_of : Str → Option Str
  pub update : FileMeta → Str → FileMeta

abbrev pub comment : Str → (FileMeta → Str → FileMeta) → Field
comment name f = record { rest_of = λ t. comment_field t name; update = f }

abbrev pub setting : Str → (FileMeta → Str → FileMeta) → Field
setting key f = record { rest_of = strip_prefix key; update = f }

abbrev pub fact_of : Bool → Option Str
fact_of true = some []
fact_of false = none

-- A line that is taken as it is, by a test.
abbrev pub flag : (Str → Bool) → (FileMeta → FileMeta) → Field
flag test f = record { rest_of = λ t. fact_of (test t); update = λ meta rest. f meta }

abbrev pub one_of : Str → Str → Str → Str → Bool
one_of a b c t = same_ignoring_case t a || (same_ignoring_case t b || str_eq t c)

-- The branches of `parse_meta` in their order. `str::parse::<i32>` is a parameter.
abbrev pub meta_fields : (Str → Option ℤ) → List Field
meta_fields parse_i32 =
    flag is_managed_marker (λ m. record m { managed = true })
    ∷ comment (codes "spec-sha256") (λ m r. record m { spec_sha = some r })
    ∷ comment (codes "title") (λ m r. record m { title = some r })
    ∷ comment (codes "purpose") (λ m r. record m { purpose = some r })
    ∷ comment (codes "tags") (λ m r. record m { tags = tags_of r })
    ∷ comment (codes "origin-cwd") (λ m r. record m { origin_cwd = some r })
    ∷ comment (codes "origin-scope") (λ m r. record m { origin_scope = some r })
    ∷ comment (codes "origin-scope-root") (λ m r. record m { origin_scope_root = some r })
    ∷ comment (codes "created-at") (λ m r. record m { created_at = some r })
    ∷ setting (codes "Type=") (λ m r. record m { service_type = some (trim r) })
    ∷ flag
        (one_of (codes "RemainAfterExit=yes") (codes "RemainAfterExit=true")
          (codes "RemainAfterExit=1"))
        (λ m. record m { remain_after_exit = true })
    ∷ setting (codes "Description=") (λ m r. set_description m m.description (trim r))
    ∷ setting (codes "ExecStart=") (λ m r. record m { exec_start = some (trim r) })
    ∷ setting (codes "WorkingDirectory=") (λ m r. record m { working_directory = some (trim r) })
    ∷ setting (codes "OnCalendar=") (λ m r. record m { on_calendar = some (trim r) })
    ∷ setting (codes "OnBootSec=") (λ m r. record m { on_boot_sec = some (trim r) })
    ∷ setting (codes "OnUnitActiveSec=") (λ m r. record m { on_unit_active_sec = some (trim r) })
    ∷ setting (codes "OnUnitInactiveSec=")
        (λ m r. record m { on_unit_inactive_sec = some (trim r) })
    ∷ setting (codes "AccuracySec=") (λ m r. record m { accuracy_sec = some (trim r) })
    ∷ flag (one_of (codes "Persistent=true") (codes "Persistent=yes") (codes "Persistent=1"))
        (λ m. record m { persistent = some true })
    ∷ flag (one_of (codes "Persistent=false") (codes "Persistent=no") (codes "Persistent=0"))
        (λ m. record m { persistent = some false })
    ∷ setting (codes "Environment=") (λ m r. parse_environment_assignment m (trim r))
    ∷ setting (codes "EnvironmentFile=")
        (λ m r. record m { environment_files = m.environment_files ++ trim r ∷ [] })
    ∷ setting (codes "After=") (λ m r. record m { after = push_after m.after (words_from [] r) })
    ∷ flag (λ t. starts_with (codes "Wants=") t && contains_str network_online t)
        (λ m. record m { wants_network_online = true })
    ∷ setting (codes "Restart=") (λ m r. record m { restart = some (trim r) })
    ∷ setting (codes "Nice=") (λ m r. set_nice m (parse_i32 (trim r)))
    ∷ []

abbrev pub apply_field : FileMeta → Field → Option Str → FileMeta → FileMeta
apply_field meta field none other = other
apply_field meta field (some rest) other = field.update meta rest

-- The first branch whose test holds.
pub first_field : List Field → FileMeta → Str → FileMeta
first_field [] meta t = meta
first_field (field ∷ fields) meta t =
    let other = first_field fields meta t in apply_field meta field (field.rest_of t) other

pub meta_lines : (Str → Option ℤ) → FileMeta → List Str → FileMeta
meta_lines parse_i32 meta [] = meta
meta_lines parse_i32 meta (line ∷ rest) =
    meta_lines parse_i32 (first_field (meta_fields parse_i32) meta (trim line)) rest

pub parse_meta : (Str → Option ℤ) → Str → FileMeta
unfolding meta_lines
parse_meta parse_i32 text = meta_lines parse_i32 default_meta (lines text)

pub infer_kind : FileMeta → Bool → Option Str
infer_kind meta true = some (codes "oneshot")
infer_kind meta false = kind_of meta.service_type
  where
    kind_of : Option Str → Option Str
    kind_of none = none
    kind_of (some ty) =
        if str_eq ty (codes "simple")
        then some (codes "simple")
        else if str_eq ty (codes "oneshot")
        then some (if meta.remain_after_exit then codes "oneshot-linger" else codes "oneshot")
        else none

abbrev pub split_exec_option : Option Str → Option Str × List Str
split_exec_option none = (none, [])
split_exec_option (some line) = split_exec line

pub after_without_network : FileMeta → List Str
after_without_network svc =
    if svc.wants_network_online
    then retain (λ a. not (str_eq a network_online)) svc.after
    else svc.after

abbrev pub has_interval : FileMeta → Bool
has_interval meta =
    is_some meta.on_boot_sec
    || (is_some meta.on_unit_active_sec || is_some meta.on_unit_inactive_sec)

abbrev pub opt_bool : Option Bool → Value
opt_bool none = null
opt_bool (some b) = bool b

abbrev pub timer_json : FileMeta → Option Str → Value
timer_json m (some on_calendar) = object (
    (codes "type", str (codes "calendar"))
    ∷ (codes "on_calendar", str on_calendar)
    ∷ (codes "persistent", opt_bool m.persistent)
    ∷ (codes "accuracy_sec", opt_str m.accuracy_sec)
    ∷ [])
timer_json m none =
    if has_interval m
    then object (
        (codes "type", str (codes "interval"))
        ∷ (codes "on_boot_sec", opt_str m.on_boot_sec)
        ∷ (codes "on_unit_active_sec", opt_str m.on_unit_active_sec)
        ∷ (codes "on_unit_inactive_sec", opt_str m.on_unit_inactive_sec)
        ∷ (codes "persistent", opt_bool m.persistent)
        ∷ (codes "accuracy_sec", opt_str m.accuracy_sec)
        ∷ [])
    else null

pub schedule_view : Option FileMeta → Value
schedule_view none = null
schedule_view (some m) = timer_json m m.on_calendar

abbrev pub meta_json : Str → FileMeta → Value → Value → Bool → Value
meta_json stem svc schedule enablement has_timer =
    let exec = split_exec_option svc.exec_start in
    object (
      (codes "unit", str stem)
      ∷ (codes "kind", opt_str (infer_kind svc has_timer))
      ∷ (codes "title", opt_str svc.title)
      ∷ (codes "purpose", opt_str svc.purpose)
      ∷ (codes "tags", str_list svc.tags)
      ∷ (codes "description", opt_str svc.description)
      ∷ (
        codes "exec",
        object ((codes "path", opt_str (exec.0)) ∷ (codes "argv", str_list (exec.1)) ∷ []),
      )
      ∷ (codes "cwd", opt_str svc.working_directory)
      ∷ (codes "env", object (map env_field svc.env))
      ∷ (codes "path", str_list svc.path)
      ∷ (codes "environment_files", str_list svc.environment_files)
      ∷ (codes "after", str_list (after_without_network svc))
      ∷ (codes "wants_network_online", bool svc.wants_network_online)
      ∷ (codes "restart", opt_str svc.restart)
      ∷ (codes "nice", opt_nice svc.nice)
      ∷ (codes "schedule", schedule)
      ∷ (codes "enabled", bool (enablement_is_on enablement))
      ∷ [])

pub editable_spec_json : Str → Bool → Option FileMeta → Option FileMeta → Value → Bool → Value
unfolding schedule_view
editable_spec_json stem managed none timer_meta enablement has_timer = null
editable_spec_json stem managed (some svc) timer_meta enablement has_timer =
    if managed then meta_json stem svc (schedule_view timer_meta) enablement has_timer else null
