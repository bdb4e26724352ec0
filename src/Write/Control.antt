-- ===== src/Write/Control.antt =====
-- `observe`, `plan` and `apply_control` of src/write.rs. The configuration, the outcome of
-- `cfg.hmac_key()`, the write prefix in force and the time are arguments; what `systemctl` answers
-- and the JSON text are parameters.
use systemd_ops.Base.{
  ℕ, true, Option, none, some, List, [], ◌∷◌, ◌++◌, map, if◌then◌else◌, Str, Bytes, codes, str_eq,
  Result, ok, ensure, ok_or,
}
use systemd_ops.Config.{OpsConfig}
use systemd_ops.Json.{Value, str, array, items, object, opt_str, get_str, unwrap_or, bool}
use systemd_ops.Systemd.Clock.{unix_to_rfc3339}
use systemd_ops.Systemd.Names.{Manager, validate_unit_name}
use systemd_ops.Systemd.Prefix.{require_write_unit}
use systemd_ops.Systemd.Runs.{Systemctl, Step, ◌>>=◌, ◌>>◌, give}
use systemd_ops.Systemd.Units.{
  ensure_unit_known, unit_state, unit_file_state, service_log_get, apply_verb,
}
use systemd_ops.Token.Base64.{invalid_token}
use systemd_ops.Token.Plan.{JsonText, SealedPlan, control, mint}
use systemd_ops.Write.Actions.{
  Action, Dimension, active, unit_file, log, verb, action_name, action_parse, dimension, is_active,
  predicted, state_key, rollback_json,
}

-- What `plan` shows as current or predicted state.
pub current_json : Action → Str → Str → Value
unfolding dimension state_key
current_json action observed sub =
    if is_active (dimension action)
    then object ((state_key action, str observed) ∷ (codes "sub", str sub) ∷ [])
    else object ((state_key action, str observed) ∷ [])

pub predicted_json : Action → Option Str → Value
unfolding predicted
predicted_json action none = opt_str (predicted action)
predicted_json action (some value) = str value

-- The payload that a control plan seals.
unfoldable pub control_payload : Action → Str → Str → Option Str → Value
control_payload action observed sub value = object (
    (codes "action", str (action_name action))
    ∷ (codes "observed", str observed)
    ∷ (codes "sub", str sub)
    ∷ (codes "value", opt_str value)
    ∷ [])

pub plan_answer : Str → SealedPlan → Action → Str → Str → Option Str → Value
plan_answer token sealed action observed sub value = object (
    (codes "plan_token", str token)
    ∷ (codes "class", str (codes "control"))
    ∷ (codes "unit", str sealed.unit)
    ∷ (codes "action", str (action_name action))
    ∷ (codes "value", opt_str value)
    ∷ (codes "issued_at", str (unix_to_rfc3339 sealed.issued_at))
    ∷ (codes "expires_at", str (unix_to_rfc3339 sealed.expires_at))
    ∷ (codes "current", current_json action observed sub)
    ∷ (codes "predicted", object ((state_key action, predicted_json action value) ∷ []))
    ∷ (codes "rollback", rollback_json action observed)
    ∷ (codes "note", str (codes "nothing has been executed; apply with the plan_token"))
    ∷ [])

pub stale : Str → Str → Str → Str
stale unit observed now =
    codes "plan is stale: '"
    ++ (unit
        ++ (codes "' was "
            ++ (observed ++ (codes " at plan time but is " ++ (now ++ codes " now; re-plan")))))

unfoldable pub change : Str → Str → Value
change before after = object ((codes "before", str before) ∷ (codes "after", str after) ∷ [])

unfoldable pub diff_json : Action → Str → Str → Str → Str → Value
unfolding dimension state_key change
diff_json action observed after sub sub_after =
    if is_active (dimension action)
    then object
        ((state_key action, change observed after) ∷ (codes "sub", change sub sub_after) ∷ [])
    else object ((state_key action, change observed after) ∷ [])

unfoldable pub applied : SealedPlan → Action → Str → Str → (Str × Str) → List Str → Value
applied plan action observed sub after changes = object (
    (codes "class", str (codes "control"))
    ∷ (codes "unit", str plan.unit)
    ∷ (codes "action", str (action_name action))
    ∷ (codes "applied", bool true)
    ∷ (codes "diff", diff_json action observed (after.0) sub (after.1))
    ∷ (codes "changes", array (items (map str changes)))
    ∷ (codes "rollback", rollback_json action observed)
    ∷ [])

unfoldable pub payload_str : SealedPlan → Str → Option Str
unfolding get_str
payload_str plan key = get_str plan.payload key

module _ (ctl : Systemctl) (m : Manager) where
  unfoldable pub observe_in : Dimension → Action → Str → Step (Str × Str)
  observe_in active action unit = unit_state ctl m unit
  observe_in unit_file action unit = do state ← unit_file_state ctl m unit; give (ok (state, []))
  observe_in log action unit = do
    value ← service_log_get ctl m (verb action) unit
    give (ok (value, []))

  unfoldable pub observe : Action → Str → Step (Str × Str)
  observe action unit = observe_in (dimension action) action unit

  unfoldable pub plan :
      JsonText
      → OpsConfig
      → Result Bytes
      → Option (List Str)
      → ℕ
      → Action
      → Str
      → Option Str
      → Step Value
  plan json cfg key prefix now action unit value = do
    give (validate_unit_name unit)
    give (require_write_unit prefix unit)
    ensure_unit_known ctl m unit
    seen ← observe action unit
    made ←
        give
          (mint json cfg key now control unit none (control_payload action (seen.0) (seen.1) value))
    give (ok (plan_answer (made.0) (made.1) action (seen.0) (seen.1) value))

  unfoldable pub apply_control : Option (List Str) → SealedPlan → Step Value
  apply_control prefix plan = do
    action ←
        give (ok_or (action_parse (unwrap_or (payload_str plan (codes "action")) [])) invalid_token)
    give (require_write_unit prefix plan.unit)
    let observed = unwrap_or (payload_str plan (codes "observed")) []
    let sub = unwrap_or (payload_str plan (codes "sub")) []
    now ← observe action plan.unit
    give (ensure (str_eq (now.0) observed) (stale plan.unit observed (now.0)))
    changes ← apply_verb ctl m (verb action) plan.unit (payload_str plan (codes "value"))
    after ← observe action plan.unit
    give (ok (applied plan action observed sub after changes))
