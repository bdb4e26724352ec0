-- ===== src/Write/Guards.antt =====
-- When an application of src/write.rs runs its verb.
use systemd_ops.Base.{
  ◌≡◌, refl, ◌⊎◌, inl, inr, Option, some, List, [], ◌∷◌, Bool-cases, Option-cases, Str, codes,
  str_eq, str_eq_iff, ok, Result-cases,
}
use systemd_ops.Json.{unwrap_or}
use systemd_ops.Systemd.Names.{Manager}
use systemd_ops.Systemd.Prefix.{require_write_unit}
use systemd_ops.Systemd.Runs.{Command, Systemctl, manager_args, systemctl}
use systemd_ops.Systemd.Units.{verb_args, apply_verb}
use systemd_ops.Token.Plan.{SealedPlan}
use systemd_ops.Write.Actions.{Action, verb, action_parse}
use systemd_ops.Write.Control.{payload_str, observe, apply_control}

module _ (ctl : Systemctl) (m : Manager) (prefix : Option (List Str)) (plan : SealedPlan) where
  abbrev pub planned_action : Option Action
  planned_action = action_parse (unwrap_or (payload_str plan (codes "action")) [])

  abbrev pub planned_state : Str
  planned_state = unwrap_or (payload_str plan (codes "observed")) []

  abbrev pub verb_command : Action → Command
  verb_command action =
      manager_args m (verb_args (verb action) plan.unit (payload_str plan (codes "value")))

  -- The runs after the observation, and after the verb.
  abbrev pub after_look : Action → List Command → List Command
  after_look action before = (observe ctl m action plan.unit before).1

  abbrev pub after_verb : Action → List Command → List Command
  after_verb action before = verb_command action ∷ after_look action before

  -- The verb ran, once, and what let it run.
  pub record Ran (before after : List Command) : Type 0 where
    pub action : Action
    pub sub : Str
    pub parsed : planned_action ≡ some action
    pub allowed : require_write_unit prefix plan.unit ≡ ok tt
    pub unchanged : (observe ctl m action plan.unit before).0 ≡ ok (planned_state, sub)
    pub once :
        (after ≡ after_verb action before) ⊎ (after ≡ after_look action (after_verb action before))

  -- The unit was observed, and nothing else was done.
  pub record Looked (before after : List Command) : Type 0 where
    pub action : Action
    pub parsed : planned_action ≡ some action
    pub allowed : require_write_unit prefix plan.unit ≡ ok tt
    pub only : after ≡ after_look action before

  -- An application leaves the manager alone, or only observes the unit, or runs the verb of the
  -- plan's action on the plan's unit exactly once; the last only if the write prefix allows the unit
  -- and the observed state is the one in the plan.
  pub apply_control_guarded :
      (before : List Command)
      → ((apply_control ctl m prefix plan before).1 ≡ before)
        ⊎ Looked before (apply_control ctl m prefix plan before).1
        ⊎ Ran before (apply_control ctl m prefix plan before).1
  unfolding apply_control apply_verb systemctl
  apply_control_guarded before = elim (Option-cases planned_action) [
    | inl e ↦ inl (rw e refl)
    | inr (action, e) ↦ elim (Result-cases (require_write_unit prefix plan.unit)) [
      | inr (msg, w) ↦ inl (rw (e, w) refl)
      | inl (u, w) ↦ elim (Result-cases (observe ctl m action plan.unit before).0) [
        | inr (msg, o) ↦
            inr
              (inl (record { action = action; parsed = e; allowed = w; only = rw (e, w, o) refl }))
        | inl (seen, o) ↦ elim (Bool-cases (str_eq seen.0 planned_state)) [
          | inr differ ↦ inr (
              inl (record {
                action = action;
                parsed = e;
                allowed = w;
                only = rw (e, w, o, differ) refl;
              }))
          | inl same ↦
              let here : seen.0 ≡ planned_state = (str_eq_iff seen.0 planned_state).0 same in
              inr (
                inr (record {
                  action = action;
                  sub = seen.1;
                  parsed = e;
                  allowed = w;
                  unchanged = rw (o, ← here) refl;
                  once =
                      elim (Result-cases
                        (ctl.output (after_look action before) (verb_command action))) [
                          | inr (msg, v) ↦ inl (rw (e, w, o, same, v) refl)
                          | inl (out, v) ↦
                              elim (Result-cases
                                (observe ctl m action plan.unit (after_verb action before)).0) [
                                  | inr (msg, l) ↦ inr (rw (e, w, o, same, v, l) refl)
                                  | inl (last, l) ↦ inr (rw (e, w, o, same, v, l) refl)
                                ]
                        ];
                }))
        ]
      ]
    ]
  ]
