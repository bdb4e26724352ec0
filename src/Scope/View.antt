-- ===== src/Scope/View.antt =====
-- The view of a scope in src/scope.rs: `aggregate`, which joins what is known of the operations of
-- a scope and derives the scope's health and what wants attention. The joins with automation and
-- operators are an interface.
use systemd_ops.Base.{
  Bool, true, false, not, ◌&&◌, Option, none, some, List, [], ◌∷◌, ◌++◌, map, if◌then◌else◌, any,
  Str, codes, str_eq, is_empty, trim,
}
use systemd_ops.Json.{
  Value, Fields, null, bool, str, obj, array, field, end, items, object, opt_str, as_str, as_bool,
  get_str, get, and_then, unwrap_or,
}
use systemd_ops.Operator.Surface.{OperatorState}
use systemd_ops.Scope.{ScopeHealth, scope_health_str}
use systemd_ops.Scope.Manifest.{ScopeManifest}

pub record Attention : Type 0 where
  pub operation : Str
  pub relationship : Str
  pub code : Str
  pub reason : Str

pub record ScopeView : Type 0 where
  pub id : Str
  pub automation_agent_root : Option Str
  pub coordination_lead : Option Str
  pub root : Str
  pub health : ScopeHealth
  pub owned : List Value
  pub watching : List Value
  pub attention : List Attention
  pub warnings : List Str

abbrev pub attention_json : Attention → Value
attention_json a = object (
    (codes "operation", str a.operation)
    ∷ (codes "relationship", str a.relationship)
    ∷ (codes "code", str a.code)
    ∷ (codes "reason", str a.reason)
    ∷ [])

pub view_json : ScopeView → Value
view_json v = object (
    (codes "id", str v.id)
    ∷ (codes "root", str v.root)
    ∷ (codes "automation", object ((codes "agent_root", opt_str v.automation_agent_root) ∷ []))
    ∷ (codes "coordination", object ((codes "lead", opt_str v.coordination_lead) ∷ []))
    ∷ (codes "health", str (scope_health_str v.health))
    ∷ (codes "owned", array (items v.owned))
    ∷ (codes "watching", array (items v.watching))
    ∷ (codes "attention", array (items (map attention_json v.attention)))
    ∷ (codes "warnings", array (items (map str v.warnings)))
    ∷ [])

pub missing_view : Str → Value
missing_view stem = object (
    (codes "unit", str stem)
    ∷ (codes "title", null)
    ∷ (codes "purpose", null)
    ∷ (codes "tags", array (items []))
    ∷ (codes "management", str (codes "missing"))
    ∷ (codes "kind", null)
    ∷ (codes "state", null)
    ∷ (codes "sub", null)
    ∷ (codes "last_result", null)
    ∷ (codes "last", null)
    ∷ (codes "next", null)
    ∷ (codes "editable_spec", null)
    ∷ (codes "definition_revision", null)
    ∷ (codes "missing", bool true)
    ∷ [])

-- `view[key] = value`, which panics on a value that is neither an object nor null; views are objects.
pub set_field : Str → Value → Fields → Fields
set_field key v end = field key v end
set_field key v (field k w fs) =
    let rest = set_field key v fs in if str_eq k key then field k v fs else field k w rest

abbrev pub set : Str → Value → Value → Value
set key v (obj fs) = obj (set_field key v fs)
set key v null = object ((key, v) ∷ [])
set key v other = other

-- What automation and operators tell of an operation of the scope.
pub record Joins : Type 0 where
  pub join_operation : Str → Value × Option Str
  pub attach_inspect_surfaces : Str → Bool → Value → Value
  pub operation_home : Str → Str
  pub join_for_scope : Str → Option Str → Value × OperatorState × Option Str
  pub derive_semantic_states : List Value → List Value
  pub attach_relations : List Value → List Value

abbrev pub unit_of : Value → Str
unit_of view = unwrap_or (get_str view (codes "unit")) []

abbrev pub option_is : Option Str → Str → Bool
option_is none word = false
option_is (some s) word = str_eq s word

unfoldable pub is_completed : Value → Bool
is_completed automation =
    option_is (and_then (get automation (codes "lifecycle")) (λ l. get_str l (codes "status")))
      (codes "completed")

abbrev pub is_critical : ScopeManifest → Str → Bool
is_critical m unit = any (λ c. str_eq c unit) m.critical

-- The labels of `inspect_attention_labels`, each if its test holds.
abbrev pub in_deployment : Value → Str → Option Value
in_deployment automation key = and_then (get automation (codes "deployment")) (λ d. get d key)

pub stall_reason : Value → Str
stall_reason automation = trim (
    unwrap_or
      (and_then (in_deployment automation (codes "stall")) (λ s. get_str s (codes "reason"))) [])

pub canary_pending : Value → Bool
canary_pending automation =
    option_is (and_then (in_deployment automation (codes "phase")) as_str) (codes "candidate")
    && option_is
        (and_then (in_deployment automation (codes "canary")) (λ c. get_str c (codes "result")))
        (codes "pending")

abbrev pub is_true : Option Bool → Bool
is_true none = false
is_true (some b) = b

abbrev pub label_if : Bool → Str → Str → List (Str × Str)
label_if true code reason = (code, reason) ∷ []
label_if false code reason = []

pub inspect_attention_labels : Value → List (Str × Str)
inspect_attention_labels view =
    let automation = unwrap_or (get view (codes "automation")) null in
    label_if (not (is_empty (stall_reason automation))) (codes "deploy_stalled")
      (stall_reason automation)
    ++ label_if (canary_pending automation) (codes "canary_pending") (codes "canary result pending")
    ++ label_if (is_true (and_then (get automation (codes "desired_unconsumed")) as_bool))
        (codes "admission_unconsumed") (codes "desired inputs unconsumed")
