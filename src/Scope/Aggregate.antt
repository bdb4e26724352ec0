-- ===== src/Scope/Aggregate.antt =====
-- `aggregate` of src/scope.rs: the view of a scope from the views of its operations.
pub mod Laws
pub mod Explained
use systemd_ops.Base.{
  ℕ, zero, suc, ◌+◌, ◌-◌, ◌*◌, ◌/◌, ◌%◌, ◌^◌, ◌≤◌, ◌<◌, min, max, String, ◌≡◌, refl, sym, ap, ap₂,
  ◌∙◌, subst, ◌≢◌, ◌↔◌, ◌⊎◌, inl, inr, Bool, true, false, not, ◌&&◌, ◌||◌, Option, none, some, List,
  [], ◌∷◌, ◌++◌, map, reverse, arith, ltb, leb, ◌==◌, if◌then◌else◌, within, leb→le, ltb→lt, ==_iff,
  Bool-cases, Option-cases, length, get_or, take, drop, replicate, all, any, retain, All,
  length-append, length-take, length-drop, length-replicate, length-map, All-append, Str, Bytes,
  IsByte, codes, str_eq, str_eq_iff, str_eq_refl, utf8_char, as_bytes, len, is_empty,
  is_ascii_lower, is_ascii_upper, is_ascii_digit, is_ascii_alphanumeric, is_whitespace, contains,
  trim_start, trim_end, trim, strip_prefix, starts_with, ends_with, contains_str, split, split_once,
  lines, join, ascii_lower, push_front, Result, ok, err, ◌>>=◌, ◌>>◌, ensure, ok_or, all_below,
  all_below_sound, bind-eq-ok, if-eq-ok, ensure-eq-ok, ok-injective, Result-cases,
}
use systemd_ops.Json.{Value, null, bool, str, get, get_str, unwrap_or, and_then, is_null}
use systemd_ops.Operations.Health.{
  Health, failed, unknown, health_str, operation_health, is_wanted_inactive_timer,
}
use systemd_ops.Operations.Health
use systemd_ops.Operator.Surface.{OperatorState, state_str}
use systemd_ops.Scope.{ScopeHealth, raise}
use systemd_ops.Scope
use systemd_ops.Scope.Manifest.{ScopeManifest}
use systemd_ops.Scope.View.{
  Attention, ScopeView, set, Joins, unit_of, option_is, is_completed, is_critical,
  inspect_attention_labels,
}

-- An operation after the joins: its health, and whether its timer is wanted and inactive.
pub record Member : Type 0 where
  pub view : Value
  pub unit : Str
  pub critical : Bool
  pub health : Health
  pub wanted_inactive : Bool
  pub warnings : List Str

abbrev pub health_of : Bool → Value → Health
health_of true view = Health.healthy
health_of false view = operation_health view

abbrev pub list_of_option {ℓ} : {A : Type ℓ} → Option A → List A
list_of_option none = []
list_of_option (some a) = a ∷ []

-- `if view.get("definition_revision").is_none() { .. = Null }`.
abbrev pub default_null : Str → Value → Option Value → Value
default_null key view none = set key null view
default_null key view (some v) = view

abbrev pub placed : ScopeManifest → Joins → Str → Str → Bool → Health → Value → Value
placed m joins relationship unit critical health view =
    set (codes "operation_home") (str (joins.operation_home unit)) (
      set (codes "scope_root") (str m.root) (
        set (codes "scope_id") (str m.id) (
          set (codes "critical") (bool critical) (
            set (codes "relationship") (str relationship)
              (set (codes "health") (str (health_str health)) view)))))

-- The operator's surface, state and basis, in the view.
abbrev pub with_operator : Value → Value × OperatorState × Option Str → Value
with_operator view (operator, state, warning) =
    let joined =
      set (codes "operator_state") (str (state_str state)) (set (codes "operator") operator view) in
    set (codes "basis_revision")
      (unwrap_or (and_then (get joined (codes "operator")) (λ o. get o (codes "basis_revision")))
        null)
      joined

abbrev pub with_automation : ScopeManifest → Joins → Value → Str → Bool → Health → Value → Value
with_automation m joins automation unit critical health view =
    let given = placed m joins (codes "owned") unit critical health view in
    let active = option_is (get_str given (codes "state")) (codes "active") in
    let joined =
      set (codes "automation") (joins.attach_inspect_surfaces unit active automation) given in
    default_null (codes "definition_revision") joined (get joined (codes "definition_revision"))

abbrev pub member_of : ScopeManifest → Joins → Value → Value × Option Str → Member
member_of m joins view (automation, automation_warning) =
    let unit = unit_of view in
    let critical = is_critical m unit in
    let completed = is_completed automation in
    let health = health_of completed view in
    let joined = with_automation m joins automation unit critical health view in
    let found = joins.join_for_scope unit (get_str joined (codes "definition_revision")) in
    record {
      view = with_operator joined found;
      unit = unit;
      critical = critical;
      health = health;
      wanted_inactive = not completed && is_wanted_inactive_timer view;
      warnings = list_of_option automation_warning ++ list_of_option (found.2);
    }

pub owned_member : ScopeManifest → Joins → Value → Member
owned_member m joins view = member_of m joins view (joins.join_operation (unit_of view))

-- What an owned operation raises the scope's health to, if anything, and the code and the reason of
-- its attention, by health, criticality and a wanted, inactive timer.
abbrev pub unknown_label : Bool → Str × Str
unknown_label true = (codes "wanted_inactive", codes "enabled, no future trigger")
unknown_label false = (codes "operation_unknown", codes "unknown")

pub judge : Health → Bool → Bool → Option ScopeHealth × Option (Str × Str)
judge failed true wanted = (some Scope.failed, some (codes "operation_failed", codes "failed"))
judge failed false wanted = (some Scope.degraded, some (codes "operation_failed", codes "failed"))
judge unknown true wanted = (some Scope.unknown, some (unknown_label wanted))
judge unknown false true = (none, some (unknown_label true))
judge unknown false false = (none, none)
judge Health.healthy critical wanted = (none, none)

abbrev pub attention_of : Str → Str → Str × Str → Attention
attention_of unit relationship (code, reason) = record {
  operation = unit;
  relationship = relationship;
  code = code;
  reason = reason;
}

abbrev pub raise_by : ScopeHealth → Option ScopeHealth → ScopeHealth
raise_by h none = h
raise_by h (some other) = raise h other

-- The first label is shown with the view, and that of a stalled deployment before any other.
abbrev pub show_label : Value → Str × Str → Value
show_label view (code, reason) =
    if is_empty (unwrap_or (get_str view (codes "attention_code")) [])
      || str_eq code (codes "deploy_stalled")
    then set (codes "attention_reason") (str reason) (set (codes "attention_code") (str code) view)
    else view

pub show_labels : Value → List (Str × Str) → Value
show_labels view [] = view
show_labels view (l ∷ ls) = show_labels (show_label view l) ls

-- The state of the loops.
pub record Tally : Type 0 where
  pub health : ScopeHealth
  pub attention : List Attention
  pub warnings : List Str
  pub views : List Value

abbrev pub add_judged : Tally → Str → Str → Option ScopeHealth × Option (Str × Str) → Tally
add_judged t unit relationship (h, label) = record t {
  health = raise_by t.health h;
  attention = t.attention ++ map (attention_of unit relationship) (list_of_option label);
}

pub add_owned : Tally → Member → Tally
unfolding judge
add_owned t member =
    let judged =
      add_judged t member.unit (codes "owned")
        (judge member.health member.critical member.wanted_inactive) in
    let labels = inspect_attention_labels member.view in
    record judged {
      attention =
          judged.attention ++ map (attention_of (unit_of member.view) (codes "owned")) labels;
      warnings = t.warnings ++ member.warnings;
      views = t.views ++ show_labels member.view labels ∷ [];
    }

pub tally_owned : ScopeManifest → Joins → Tally → List Value → Tally
unfolding add_owned owned_member
tally_owned m joins t [] = t
tally_owned m joins t (view ∷ rest) =
    tally_owned m joins (add_owned t (owned_member m joins view)) rest

abbrev pub watching_view : ScopeManifest → Joins → Value → Value
watching_view m joins view =
    let given =
      placed m joins (codes "watching") (unit_of view) false (operation_health view) view in
    let revised =
      default_null (codes "definition_revision") given (get given (codes "definition_revision")) in
    set (codes "basis_revision") null
      (set (codes "operator_state") null (set (codes "operator") null revised))

abbrev pub judge_watching : Health → Option ScopeHealth × Option (Str × Str)
judge_watching failed = (some Scope.degraded, some (codes "operation_failed", codes "failed"))
judge_watching _ = (none, none)

pub add_watching : ScopeManifest → Joins → Tally → Value → Tally
add_watching m joins t view =
    let judged =
      add_judged t (unit_of view) (codes "watching") (judge_watching (operation_health view)) in
    record judged { views = t.views ++ watching_view m joins view ∷ [] }

pub tally_watching : ScopeManifest → Joins → Tally → List Value → Tally
unfolding add_watching
tally_watching m joins t [] = t
tally_watching m joins t (view ∷ rest) = tally_watching m joins (add_watching m joins t view) rest

abbrev pub is_nil {ℓ} : {A : Type ℓ} → List A → Bool
is_nil [] = true
is_nil (a ∷ as') = false

abbrev pub start_tally : Tally
start_tally = record { health = Scope.healthy; attention = []; warnings = []; views = [] }

pub aggregate : ScopeManifest → Joins → List Value → List Value → ScopeView
unfolding tally_owned tally_watching
aggregate m joins owned_ops watching_ops =
    let t = tally_owned m joins start_tally owned_ops in
    let owned = joins.attach_relations (joins.derive_semantic_states t.views) in
    let w = tally_watching m joins (record t { views = [] }) watching_ops in
    record {
      id = m.id;
      automation_agent_root = m.automation_agent_root;
      coordination_lead = m.coordination_lead;
      root = m.root;
      health = if is_nil owned && is_nil w.views then Scope.unknown else w.health;
      owned = owned;
      watching = w.views;
      attention = w.attention;
      warnings = w.warnings;
    }
