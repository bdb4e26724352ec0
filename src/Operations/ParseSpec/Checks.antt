-- ===== src/Operations/ParseSpec/Checks.antt =====
-- What the checks of `parse_spec` in src/operations.rs let through.
use systemd_ops.Base.{
  ◌≤◌, ◌≡◌, refl, subst, inl, inr, true, false, not, ◌&&◌, Option, none, some, List, [], ◌∷◌, arith,
  leb, All, Str, codes, str_eq, len, is_empty, starts_with, Result, ok, ensure, bind-eq-ok,
  if-eq-ok, ensure-eq-ok, ok-injective,
}
use systemd_ops.Files.{
  Disk, Node, file, directory, link, behind, metadata, metadata_node, node_is_file, is_dir, is_file,
}
use systemd_ops.Operations.Fields.Laws.{IsSchedule, parse_schedule-IsSchedule}
use systemd_ops.Json.{Value, null, bool, int, float, str, array, obj, ℤ}
use systemd_ops.Operations.Context.{normalize_cwd}
use systemd_ops.Operations.Fields.{Kind, simple, oneshot, oneshot_linger, Schedule, parse_schedule}
use systemd_ops.Operations.ParseSpec
use systemd_ops.Operations.ParseSpec.{
  without_break, validate_abs_path, check_each, check_arg, check_path_entry, is_allowed_dep,
  check_dep, parse_cwd, parse_env, is_restart, restart_of, parse_restart, is_nice, nice_of,
  parse_nice, stamp, stamp_at, stamp_origin_scope, object_or, CommandPart, ListsPart, PolicyPart,
  TextPart, command_of, lists_of, policy_of, text_of, join_parts, spec_of, parse_spec,
}
use systemd_ops.Systemd.Names.{validate_unit_name}

pub check_each-All {ℓ} :
    (P : Str → Type ℓ) (check : Str → Result (Unit {0}))
    → ((s : Str) (u : Unit {0}) → check s ≡ ok u → P s)
    → (ss : List Str) {u : Unit {0}} → check_each check ss ≡ ok u
    → All P ss
unfolding check_each
check_each-All P check k [] h = tt
check_each-All P check k (s ∷ ss) h =
    let (u, e, h1) = bind-eq-ok (check s) _ h in (k s u e, check_each-All P check k ss h1)

-- An absolute path of a file, of at most 512 bytes, on one line.
pub record IsFilePath (disk : Disk) (path : Str) : Type 0 where
  pub short : len path ≤ 512
  pub from_root : starts_with (codes "/") path ≡ true
  pub one_line : without_break path ≡ true
  pub a_file : is_file disk path ≡ true

reached-is_file :
    (label path : Str) (o : Option Node) {u : Unit {0}}
    → ParseSpec.reached label path (metadata_node o) ≡ ok u
    → node_is_file o ≡ true
reached-is_file label path none h = cc
reached-is_file label path (some (file bytes)) h = refl
reached-is_file label path (some directory) h = ensure-eq-ok false _ h
reached-is_file label path (some (link to)) h = cc

pub validate_abs_path-IsFilePath :
    (disk : Disk) (label path : Str) {u : Unit {0}}
    → validate_abs_path disk label path true ≡ ok u
    → IsFilePath disk path
unfolding validate_abs_path is_file metadata
validate_abs_path-IsFilePath disk label path h =
    let (u, e, h1) = bind-eq-ok (ensure (not (is_empty path) && leb (len path) 512) _) _ h in
    let (u1, e1, h2) = bind-eq-ok (ensure (starts_with (codes "/") path) _) _ h1 in
    let (u2, e2, h3) = bind-eq-ok (ensure (without_break path) _) _ h2 in
    let size = ensure-eq-ok (not (is_empty path) && leb (len path) 512) _ e in
    record {
      short = ground arith;
      from_root = ensure-eq-ok (starts_with (codes "/") path) _ e1;
      one_line = ensure-eq-ok (without_break path) _ e2;
      a_file = reached-is_file label path (behind disk path) h3;
    }

-- A dependency is a valid unit that is one of the three targets or that the write prefix allows.
abbrev pub IsDep : Option (List Str) → Str → Type 0
IsDep prefix dep = (is_allowed_dep prefix dep ≡ true) × (validate_unit_name dep ≡ ok tt)

pub check_dep-IsDep :
    (prefix : Option (List Str)) (dep : Str) {u : Unit {0}}
    → check_dep prefix dep ≡ ok u
    → IsDep prefix dep
unfolding check_dep
check_dep-IsDep prefix dep h =
    let (u, e, h1) = bind-eq-ok (validate_unit_name dep) _ h in
    (ensure-eq-ok (is_allowed_dep prefix dep) _ h1, e)

abbrev pub IsCwd : Disk → Option Str → Type 0
IsCwd disk none = Unit
IsCwd disk (some cwd) = is_dir disk cwd ≡ true

pub parse_cwd-IsCwd :
    (disk : Disk) (o : Option Str) {cwd : Option Str} → parse_cwd disk o ≡ ok cwd → IsCwd disk cwd
unfolding parse_cwd
parse_cwd-IsCwd disk none h = subst (IsCwd disk) (ok-injective h) tt
parse_cwd-IsCwd disk (some s) h =
    let (dir, e, h1) = bind-eq-ok (normalize_cwd s) _ h in
    let (u, e1, h2) = bind-eq-ok (ensure (is_dir disk dir) _) _ h1 in
    subst (IsCwd disk) (ok-injective h2) (ensure-eq-ok (is_dir disk dir) _ e1)

-- Only a simple operation restarts, in one of the three ways.
abbrev pub IsRestart : Kind → Option Str → Type 0
IsRestart kind none = Unit
IsRestart kind (some s) = (kind ≡ simple) × (is_restart s ≡ true)

pub parse_restart-IsRestart :
    (o : Option Str) (kind : Kind) {restart : Option Str}
    → parse_restart o kind ≡ ok restart
    → IsRestart kind restart
unfolding parse_restart restart_of
parse_restart-IsRestart none kind h = subst (IsRestart kind) (ok-injective h) tt
parse_restart-IsRestart (some s) simple h = elim (if-eq-ok (is_restart s) _ _ h) [
  | inl (y, g) ↦ subst (IsRestart simple) (ok-injective g) (refl, y)
  | inr (y, g) ↦ cc
]
parse_restart-IsRestart (some s) oneshot h = elim (if-eq-ok (str_eq s (codes "no")) _ _ h) [
  | inl (y, g) ↦ subst (IsRestart oneshot) (ok-injective g) tt
  | inr (y, g) ↦ cc
]
parse_restart-IsRestart (some s) oneshot_linger h = elim (if-eq-ok (str_eq s (codes "no")) _ _ h) [
  | inl (y, g) ↦ subst (IsRestart oneshot_linger) (ok-injective g) tt
  | inr (y, g) ↦ cc
]

abbrev pub IsNice : Option ℤ → Type 0
IsNice none = Unit
IsNice (some n) = is_nice n ≡ true

nice_of-IsNice : (o : Option ℤ) {nice : Option ℤ} → nice_of o ≡ ok nice → IsNice nice
unfolding nice_of
nice_of-IsNice none h = cc
nice_of-IsNice (some n) h =
    let (u, e, h1) = bind-eq-ok (ensure (is_nice n) _) _ h in
    subst IsNice (ok-injective h1) (ensure-eq-ok (is_nice n) _ e)

pub parse_nice-IsNice : (o : Option Value) {nice : Option ℤ} → parse_nice o ≡ ok nice → IsNice nice
unfolding parse_nice
parse_nice-IsNice none h = subst IsNice (ok-injective h) tt
parse_nice-IsNice (some null) h = subst IsNice (ok-injective h) tt
parse_nice-IsNice (some (bool b)) h = nice_of-IsNice _ h
parse_nice-IsNice (some (int n)) h = nice_of-IsNice _ h
parse_nice-IsNice (some (float f)) h = nice_of-IsNice _ h
parse_nice-IsNice (some (str s)) h = nice_of-IsNice _ h
parse_nice-IsNice (some (array vs)) h = nice_of-IsNice _ h
parse_nice-IsNice (some (obj fs)) h = nice_of-IsNice _ h

abbrev pub IsScheduleOption : Kind → Option Schedule → Type 0
IsScheduleOption kind none = Unit
IsScheduleOption kind (some s) = (kind ≡ oneshot) × IsSchedule s

pub parse_schedule-IsScheduleOption :
    (v : Option Value) (kind : Kind) (o : Option Schedule)
    → parse_schedule v kind ≡ ok o
    → IsScheduleOption kind o
parse_schedule-IsScheduleOption v kind none h = tt
parse_schedule-IsScheduleOption v kind (some s) h = parse_schedule-IsSchedule v kind h
