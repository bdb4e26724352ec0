-- ===== src/Write/Fresh.antt =====
-- A plan that src/write.rs makes, and its application while the unit is as it was.
use systemd_ops.Base.{
  IsByte, ℕ, ◌≡◌, refl, Option, none, some, List, ◌∷◌, ◌++◌, Str, IsByte, codes, str_eq,
  str_eq_refl, ok,
}
use systemd_ops.Config.{OpsConfig}
use systemd_ops.Json.{get_str}
use systemd_ops.Systemd.Names.{Manager}
use systemd_ops.Systemd.Prefix.{require_write_unit}
use systemd_ops.Systemd.Runs.{Command, Systemctl, manager_args, systemctl}
use systemd_ops.Systemd.Units.{verb_args, apply_verb, collect_lines}
use systemd_ops.Token.Plan.{SealedPlan, control, fresh_plan}
use systemd_ops.Write.Actions.{Action, verb, action_name, action_parse}
use systemd_ops.Write.Control.{payload_str, control_payload, observe, apply_control, applied}

-- Every action is read back from its name.
action_parse-name : (a : Action) → action_parse (action_name a) ≡ some a
unfolding action_parse action_name str_eq
action_parse-name Action.start = refl
action_parse-name Action.stop = refl
action_parse-name Action.restart = refl
action_parse-name Action.reload = refl
action_parse-name Action.enable = refl
action_parse-name Action.disable = refl
action_parse-name Action.reset_failed = refl
action_parse-name Action.mask = refl
action_parse-name Action.unmask = refl
action_parse-name Action.log_level = refl
action_parse-name Action.log_target = refl

-- The plan that `plan` seals for an action and what it observed.
abbrev pub control_plan : OpsConfig → ℕ → Action → Str → Option Str → Str → Str → SealedPlan
control_plan cfg now action unit value observed sub =
    fresh_plan cfg now control unit none (control_payload action observed sub value)

module _ (ctl : Systemctl) (m : Manager) (prefix : Option (List Str)) where
  payload_action :
      (cfg : OpsConfig) (now : ℕ) (action : Action) (unit : Str) (value : Option Str)
      (observed sub : Str)
      → payload_str (control_plan cfg now action unit value observed sub) (codes "action")
        ≡ some (action_name action)
  unfolding payload_str control_payload get_str str_eq
  payload_action cfg now action unit value observed sub = refl

  -- A plan whose unit may still be written and is still in the state that the plan observed is
  -- applied, where the verb and the observations succeed: the verb runs once, between two
  -- observations.
  pub apply_control_fresh :
      (cfg : OpsConfig) (now : ℕ) (action : Action) (unit : Str) (value : Option Str)
      (observed sub : Str) (before : List Command) {sub_now : Str} {out : Str × Str}
      {last : Str × Str}
      → require_write_unit prefix unit ≡ ok tt
      → (observe ctl m action unit before).0 ≡ ok (observed, sub_now)
      → ctl.output
          (observe ctl m action unit before).1
          (manager_args m (verb_args (verb action) unit value))
        ≡ ok out
      → (observe ctl m action unit (
          manager_args m (verb_args (verb action) unit value)
          ∷ (observe ctl m action unit before).1)).0
        ≡ ok last
      → apply_control ctl m prefix (control_plan cfg now action unit value observed sub) before ≡ (
        ok (
            applied
              (control_plan cfg now action unit value observed sub)
              action
              observed
              sub
              last
              (collect_lines out.0 ++ collect_lines out.1)),
        (observe ctl m action unit (
            manager_args m (verb_args (verb action) unit value)
            ∷ (observe ctl m action unit before).1)).1,
      )
  unfolding apply_control apply_verb systemctl payload_str control_payload get_str str_eq
  apply_control_fresh cfg now action unit none observed sub before w seen ran last =
      rw (action_parse-name action, w, seen, str_eq_refl observed, ran, last) refl
  apply_control_fresh cfg now action unit (some v) observed sub before w seen ran last =
      rw (action_parse-name action, w, seen, str_eq_refl observed, ran, last) refl
