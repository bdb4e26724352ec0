-- ===== src/Write/Tests.antt =====
-- Plans and applications of src/write.rs against a manager that always gives one answer.
use systemd_ops.Base.{
  ◌≡◌, refl, ◌⊎◌, Option, none, some, List, [], ◌∷◌, ◌++◌, Str, codes, str_eq, lines, join, ok,
}
use systemd_ops.Config.{OpsConfig}
use systemd_ops.Json.{get_str}
use systemd_ops.Systemd.Names.{system}
use systemd_ops.Systemd.Prefix.{require_write_unit}
use systemd_ops.Systemd.Runs.{Command, Systemctl, systemctl}
use systemd_ops.Systemd.Units.{key_values, prop, show, unit_state, collect_lines}
use systemd_ops.Token.Plan.{JsonText, SealedPlan, body_of}
use systemd_ops.Write.Actions.{
  Action, verb, action_parse, inverse, state_key, dimension, rollback_json, rollback_json-inverse,
}
use systemd_ops.Write.Control.{observe, observe_in, apply_control, applied}
use systemd_ops.Write.Guards.{Looked, Ran, apply_control_guarded}
use systemd_ops.Write.Answers.{Tells, apply_control-Tells}
use systemd_ops.Write.Fresh.{control_plan, apply_control_fresh}

abbrev idle : Systemctl
idle = record {
  output = λ log cmd. ok (
    codes "LoadState=loaded"
        ++ (10 ∷ (codes "ActiveState=inactive" ++ (10 ∷ codes "SubState=dead"))),
    [],
  );
}

abbrev the_cfg : OpsConfig
the_cfg = record {
  manager = system;
  write_prefix = none;
  plan_ttl_secs = 600;
  state_dir = codes "/run";
}

abbrev the_prefix : Option (List Str)
the_prefix = some (codes "a*" ∷ [])

abbrev the_plan : SealedPlan
the_plan =
    control_plan the_cfg 1_000 Action.start (codes "a.service") none (codes "inactive")
      (codes "dead")

abbrev one_text : JsonText
one_text = record { to_text = λ v. codes "{}"; from_slice = λ b. some (body_of the_plan) }

abbrev shown : Command
shown =
    codes "show"
    ∷ codes "--no-pager"
    ∷ codes "--property=ActiveState,SubState"
    ∷ codes "--"
    ∷ codes "a.service"
    ∷ []

abbrev started : Command
started = codes "start" ∷ codes "--no-pager" ∷ codes "--" ∷ codes "a.service" ∷ []

apply_control_guarded_example :
    ((apply_control idle system the_prefix the_plan []).1 ≡ [])
    ⊎ Looked idle system the_prefix the_plan [] (apply_control idle system the_prefix the_plan []).1
    ⊎ Ran idle system the_prefix the_plan [] (apply_control idle system the_prefix the_plan []).1
apply_control_guarded_example = apply_control_guarded idle system the_prefix the_plan []

fresh_answer : apply_control idle system the_prefix the_plan [] ≡ (
  ok (
      applied the_plan Action.start
        (codes "inactive")
        (codes "dead")
        (codes "inactive", codes "dead")
        (collect_lines (
            codes "LoadState=loaded"
            ++ (10 ∷ (codes "ActiveState=inactive" ++ (10 ∷ codes "SubState=dead"))))
          ++ collect_lines [])),
  shown ∷ started ∷ shown ∷ [],
)
unfolding observe observe_in dimension require_write_unit unit_state show systemctl key_values prop
    lines str_eq join verb
fresh_answer =
    apply_control_fresh idle system the_prefix the_cfg 1_000 Action.start (codes "a.service") none
      (codes "inactive") (codes "dead") [] refl refl refl refl

apply_control-Tells_example : Tells idle system the_prefix the_plan [] (
    applied the_plan Action.start
      (codes "inactive")
      (codes "dead")
      (codes "inactive", codes "dead")
      (collect_lines (
          codes "LoadState=loaded"
          ++ (10 ∷ (codes "ActiveState=inactive" ++ (10 ∷ codes "SubState=dead"))))
        ++ collect_lines []))
apply_control-Tells_example = apply_control-Tells idle system the_prefix the_plan [] fresh_answer

rollback_json-inverse_example :
    (b : Action) × (action_parse (codes "unmask") ≡ some b)
    × (inverse b ≡ some Action.mask)
    × (state_key b ≡ state_key Action.mask)
    × (dimension b ≡ dimension Action.mask)
unfolding rollback_json get_str str_eq
rollback_json-inverse_example = rollback_json-inverse Action.mask (codes "enabled") refl
