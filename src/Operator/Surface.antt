-- ===== src/Operator/Surface.antt =====
-- The state that an operation's agent reports, in src/operator.rs: `OperatorSurface`, its JSON and
-- its state with respect to the definition.
use systemd_ops.Base.{
  ℕ, Bool, Option, none, some, List, [], ◌∷◌, map, if◌then◌else◌, Str, codes, str_eq,
}
use systemd_ops.Json.{ℤ, Value, null, bool, int, pos, str, array, items, object, opt_str}

pub data OperatorState : Type 0 where
  missing unbased current outdated error : OperatorState

pub state_str : OperatorState → Str
state_str missing = codes "missing"
state_str unbased = codes "unbased"
state_str current = codes "current"
state_str outdated = codes "outdated"
state_str error = codes "error"

pub record OperatorActivity : Type 0 where
  pub at : Str
  pub text : Str

pub record ActiveIteration : Type 0 where
  pub id : Str
  pub started_at : Str
  pub observed_updated_at : Option Str
  pub reported_at : Option Str

pub record OperatorIteration : Type 0 where
  pub id : Str
  pub started_at : Str
  pub finished_at : Option Str
  pub exit_code : Option ℤ
  pub reconsolidated : Bool
  pub headline : Option Str
  pub summary : Option Str
  pub outcome : Option Str
  pub route : Option Str

pub record OperatorSurface : Type 0 where
  pub version : ℕ
  pub about : Option Str
  pub headline : Option Str
  pub body : Option Str
  pub updated_at : Option Str
  pub basis_revision : Option Str
  pub outcome : Option Str
  pub route : Option Str
  pub activity : List OperatorActivity
  pub active_iteration : Option ActiveIteration
  pub iterations : List OperatorIteration

abbrev pub surface_version : ℕ
surface_version = 1

abbrev pub empty_surface : OperatorSurface
empty_surface = record {
  version = surface_version;
  about = none;
  headline = none;
  body = none;
  updated_at = none;
  basis_revision = none;
  outcome = none;
  route = none;
  activity = [];
  active_iteration = none;
  iterations = [];
}

abbrev pub activity_json : OperatorActivity → Value
activity_json a = object ((codes "at", str a.at) ∷ (codes "text", str a.text) ∷ [])

abbrev pub active_json : Option ActiveIteration → Value
active_json none = null
active_json (some it) = object (
    (codes "id", str it.id)
    ∷ (codes "started_at", str it.started_at)
    ∷ (codes "observed_updated_at", opt_str it.observed_updated_at)
    ∷ (codes "reported_at", opt_str it.reported_at)
    ∷ [])

abbrev pub opt_int : Option ℤ → Value
opt_int none = null
opt_int (some n) = int n

abbrev pub iteration_json : OperatorIteration → Value
iteration_json it = object (
    (codes "id", str it.id)
    ∷ (codes "started_at", str it.started_at)
    ∷ (codes "finished_at", opt_str it.finished_at)
    ∷ (codes "exit_code", opt_int it.exit_code)
    ∷ (codes "reconsolidated", bool it.reconsolidated)
    ∷ (codes "headline", opt_str it.headline)
    ∷ (codes "summary", opt_str it.summary)
    ∷ (codes "outcome", opt_str it.outcome)
    ∷ (codes "route", opt_str it.route)
    ∷ [])

unfoldable pub surface_json : OperatorSurface → Value
surface_json s = object (
    (codes "version", int (pos s.version))
    ∷ (codes "about", opt_str s.about)
    ∷ (codes "headline", opt_str s.headline)
    ∷ (codes "body", opt_str s.body)
    ∷ (codes "updated_at", opt_str s.updated_at)
    ∷ (codes "basis_revision", opt_str s.basis_revision)
    ∷ (codes "outcome", opt_str s.outcome)
    ∷ (codes "route", opt_str s.route)
    ∷ (codes "activity", array (items (map activity_json s.activity)))
    ∷ (codes "active_iteration", active_json s.active_iteration)
    ∷ (codes "iterations", array (items (map iteration_json s.iterations)))
    ∷ [])

pub data OperatorLoad : Type 0 where
  absent : OperatorLoad
  ready : OperatorSurface → OperatorLoad
  malformed : Str → OperatorLoad

abbrev pub compare_revisions : Option Str → Option Str → OperatorState
compare_revisions none revision = unbased
compare_revisions (some basis) none = unbased
compare_revisions (some basis) (some revision) = if str_eq basis revision then current else outdated

pub derive_state : OperatorLoad → Option Str → OperatorState
derive_state absent revision = missing
derive_state (malformed message) revision = error
derive_state (ready s) revision = compare_revisions s.basis_revision revision
