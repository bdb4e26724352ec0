-- ===== src/Automation/States.antt =====
-- `derive_semantic_states` of src/automation.rs: the semantic state of each operation of a scope,
-- which depends on those of the operations that have it as their parent. The recursion runs on a
-- fuel of one turn more than there are operations, since a unit that is being visited is not
-- visited again.
pub mod Ready
pub mod Fuel
use systemd_ops.Base.{
  ℕ, zero, suc, ◌+◌, ◌-◌, ◌*◌, ◌/◌, ◌%◌, ◌^◌, ◌≤◌, ◌<◌, min, max, String, ◌≡◌, refl, sym, ap, ap₂,
  ◌∙◌, subst, ◌≢◌, ◌↔◌, ◌⊎◌, inl, inr, Bool, true, false, not, ◌&&◌, ◌||◌, Option, none, some, List,
  [], ◌∷◌, ◌++◌, map, reverse, arith, ltb, leb, ◌==◌, if◌then◌else◌, within, leb→le, ltb→lt, ==_iff,
  Bool-cases, Option-cases, length, get_or, take, drop, replicate, all, any, retain, All,
  length-append, length-take, length-drop, length-replicate, length-map, All-append, Str, Bytes,
  IsByte, codes, str_eq, str_eq_iff, str_eq_refl, utf8_char, as_bytes, len, is_empty,
  is_ascii_lower, is_ascii_upper, is_ascii_digit, is_ascii_alphanumeric, is_whitespace, contains,
  trim_start, trim_end, trim, strip_prefix, starts_with, ends_with, contains_str, split, split_once,
  lines, join, ascii_lower, push_front, Result, ok, err, ◌>>=◌, ◌>>◌, ensure, ok_or, all_below,
  all_below_sound, bind-eq-ok, if-eq-ok, ensure-eq-ok, ok-injective, Result-cases,
}
use systemd_ops.Json.{Value, bool, str, get_str, get, is_null}
use systemd_ops.Scope.Manifest.{sort, dedup}
use systemd_ops.Scope.View.{set}
use systemd_ops.Automation.Currency.{
  active_iteration, automation_of, blocker_is_current, checkpoint_is_current, agent_backed,
  is_completed, same_text,
}

pub data SemanticState : Type 0 where
  neutral running blocked waiting ready stale : SemanticState

pub semantic_str : SemanticState → Str
semantic_str neutral = codes "neutral"
semantic_str running = codes "running"
semantic_str blocked = codes "blocked"
semantic_str waiting = codes "waiting"
semantic_str ready = codes "ready"
semantic_str stale = codes "stale"

abbrev pub is_ready : SemanticState → Bool
is_ready ready = true
is_ready _ = false

abbrev pub Memo : Type 0
Memo = List (Str × SemanticState)

unfoldable pub memo_get : Str → Memo → Option SemanticState
memo_get unit [] = none
memo_get unit ((u, s) ∷ memo) =
    let rest = memo_get unit memo in if str_eq u unit then some s else rest

abbrev pub later : Option Value → Option Value → Option Value
later none o = o
later (some v) o = some v

abbrev pub has_unit : Str → Value → Bool
has_unit unit operation = same_text (get_str operation (codes "unit")) (some unit)

-- `indexes.get(unit)`, in which a later operation of the same unit is in force.
unfoldable pub find_operation : List Value → Str → Option Value
find_operation [] unit = none
find_operation (operation ∷ rest) unit =
    later (find_operation rest unit) (if has_unit unit operation then some operation else none)

abbrev pub unit_if : Bool → Option Str → List Str
unit_if true (some unit) = unit ∷ []
unit_if true none = []
unit_if false o = []

-- The units that have this one as their parent.
unfoldable pub children_of : List Value → Str → List Str
children_of [] parent = []
children_of (operation ∷ rest) parent =
    unit_if (same_text (get_str (automation_of operation) (codes "parent")) (some parent))
      (get_str operation (codes "unit"))
    ++ children_of rest parent

abbrev pub is_open : Option Value → Bool
is_open none = false
is_open (some operation) = not (is_completed operation)

-- Those of them that are there and not completed.
unfoldable pub active_children : List Value → Str → List Str
active_children ops unit =
    retain (λ child. is_open (find_operation ops child)) (children_of ops unit)

abbrev pub Derive : Type 0
Derive = Memo → Str → SemanticState × Memo

abbrev pub after_child : Derive → (Memo → Bool × Memo) → SemanticState × Memo → Bool × Memo
after_child derive rest (ready, memo) = rest memo
after_child derive rest (s, memo) = (true, memo)

-- `any(|child| derive(child) != "ready")`, which stops at the first one.
pub any_unready : Derive → List Str → Memo → Bool × Memo
any_unready derive [] memo = (false, memo)
any_unready derive (child ∷ rest) memo =
    after_child derive (any_unready derive rest) (derive memo child)

abbrev pub settled : Value → Bool × Memo → SemanticState × Memo
settled operation (true, memo) = (waiting, memo)
settled operation (false, memo) = (if checkpoint_is_current operation then ready else stale, memo)

pub state_of : List Value → Derive → Value → Str → Memo → SemanticState × Memo
unfolding any_unready
state_of ops derive operation unit memo =
    if not (agent_backed operation)
    then (neutral, memo)
    else if active_iteration operation
    then (running, memo)
    else if blocker_is_current operation
    then (blocked, memo)
    else settled operation (any_unready derive (active_children ops unit) memo)

abbrev pub remember : Str → SemanticState × Memo → SemanticState × Memo
remember unit (s, memo) = (s, (unit, s) ∷ memo)

abbrev pub visit : List Value → Derive → Str → Memo → Option Value → SemanticState × Memo
visit ops derive unit memo none = (stale, memo)
visit ops derive unit memo (some operation) =
    remember unit (state_of ops derive operation unit memo)

abbrev pub known_or :
    Bool → Memo → SemanticState × Memo → Option SemanticState → SemanticState × Memo
known_or visited memo fresh (some s) = (s, memo)
known_or visited memo fresh none = if visited then (stale, memo) else fresh

pub derive : ℕ → List Value → List Str → Derive
unfolding state_of
derive zero ops visiting memo unit = (stale, memo)
derive (suc fuel) ops visiting memo unit =
    known_or (any (λ v. str_eq v unit) visiting) memo
      (visit ops (derive fuel ops (unit ∷ visiting)) unit memo (find_operation ops unit))
      (memo_get unit memo)

pub units_of : List Value → List Str
units_of [] = []
units_of (operation ∷ rest) = unit_if true (get_str operation (codes "unit")) ++ units_of rest

pub derive_all : List Value → List Str → Memo → Memo
unfolding derive
derive_all ops [] memo = memo
derive_all ops (unit ∷ rest) memo =
    derive_all ops rest ((derive (suc (length ops)) ops [] memo unit).1)

-- The states that the operations are given; the units are visited in the order `units`.
unfoldable pub semantic_states : List Value → List Str → Memo
unfolding derive_all
semantic_states ops units = derive_all ops units []

abbrev pub mark_blocker : Bool → Value → Option Value → Value
mark_blocker current automation none = automation
mark_blocker current automation (some blocker) =
    if is_null blocker
    then automation
    else set (codes "blocker") (set (codes "current") (bool current) blocker) automation

abbrev pub with_state : Value → Option SemanticState → Value
with_state operation none = operation
with_state operation (some s) =
    let automation =
      set (codes "semantic_state") (str (semantic_str s)) (automation_of operation) in
    set (codes "automation")
      (mark_blocker (blocker_is_current operation) automation (get automation (codes "blocker")))
      operation

abbrev pub write_state : Memo → Value → Option Str → Value
write_state memo operation none = operation
write_state memo operation (some unit) = with_state operation (memo_get unit memo)

pub derive_semantic_states : List Value → List Value
derive_semantic_states ops =
    map
      (λ operation.
        write_state (semantic_states ops (dedup (sort (units_of ops)))) operation
          (get_str operation (codes "unit")))
      ops
