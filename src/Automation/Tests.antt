-- ===== src/Automation/Tests.antt =====
-- A parent and its child, both ready.
use systemd_ops.Base.{
  ◌≡◌, refl, true, none, some, List, [], ◌∷◌, arith, Str, codes, str_eq, contains, trim, ok,
}
use systemd_ops.Json.{Value, bool, str, object}
use systemd_ops.Automation.Currency
use systemd_ops.Automation.Records.{Blocker, validate_blocker}
use systemd_ops.Automation.Records.Laws.{IsBlocker, validate_blocker-IsBlocker}
use systemd_ops.Automation.States.{memo_get, ready, derive, semantic_states}
use systemd_ops.Automation.States.Ready.{IsReady, semantic_states-IsReady}
use systemd_ops.Automation.States.Fuel.{derive_enough}

abbrev operation : Str → List (Str × Value) → Value
operation unit parent = object (
    (codes "unit", str unit)
    ∷ (
      codes "automation",
      object (
          (codes "agent", str (codes "a"))
          ∷ (codes "observation", object ((codes "input_fingerprint", str (codes "f")) ∷ []))
          ∷ (
            codes "checkpoint",
            object
                ((codes "present", bool true) ∷ (codes "input_fingerprint", str (codes "f")) ∷ []),
          )
          ∷ parent),
    )
    ∷ [])

abbrev operations : List Value
operations =
    operation (codes "p") [] ∷ operation (codes "c") ((codes "parent", str (codes "p")) ∷ []) ∷ []

abbrev units : List Str
units = codes "c" ∷ codes "p" ∷ []

parent_ready : memo_get (codes "p") (semantic_states operations units) ≡ some ready
unfolding memo_get semantic_states systemd_ops.Automation.States.find_operation
    systemd_ops.Json.get_str Currency.agent_backed Currency.active_iteration
    Currency.blocker_is_current Currency.processed_is_current_blocked
    systemd_ops.Automation.States.active_children systemd_ops.Automation.States.children_of
    Currency.is_completed Currency.checkpoint_is_current
parent_ready = refl

semantic_states-IsReady_example : IsReady operations (semantic_states operations units) (codes "p")
semantic_states-IsReady_example = semantic_states-IsReady operations units parent_ready

derive_enough_example :
    derive 7 operations [] [] (codes "p") ≡ derive 3 operations [] [] (codes "p")
derive_enough_example = derive_enough operations 7 [] (codes "p") (omega arith)

abbrev given : Blocker
given = record {
  version = 2;
  id = codes " blk-1";
  input_fingerprint = some (codes "f");
  kind = codes "worktree-dirty";
  route = [];
  at = codes "t";
  iteration_id = none;
  code = none;
  summary = codes "dirty ";
}

abbrev checked : Blocker
checked = record given { id = codes "blk-1"; route = codes "self"; summary = codes "dirty" }

accepted : validate_blocker given ≡ ok checked
unfolding validate_blocker systemd_ops.Automation.Records.validate_opaque
    systemd_ops.Operator.strict_single_line systemd_ops.Operator.line_of
    systemd_ops.Operator.has_break systemd_ops.Automation.Records.route_of
    systemd_ops.Automation.Records.iteration_of str_eq trim contains
accepted = refl

validate_blocker-IsBlocker_example : IsBlocker checked
validate_blocker-IsBlocker_example = validate_blocker-IsBlocker given accepted
