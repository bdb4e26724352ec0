-- ===== src/Write/Answers.antt =====
-- What the answer of an application in src/write.rs tells.
use systemd_ops.Base.{
  ◌≡◌, refl, sym, ap, ◌∙◌, subst, inl, inr, true, Option, some, List, [], ◌++◌, Bool-cases,
  Option-cases, Str, codes, str_eq, str_eq_iff, ok, ok-injective, Result-cases,
}
use systemd_ops.Json.{Value, get, get_str, and_then, unwrap_or}
use systemd_ops.Systemd.Names.{Manager}
use systemd_ops.Systemd.Prefix.{require_write_unit}
use systemd_ops.Systemd.Runs.{Command, Systemctl, Step, ◌>>=◌, give, systemctl}
use systemd_ops.Systemd.Units.{apply_verb, collect_lines}
use systemd_ops.Token.Plan.{SealedPlan}
use systemd_ops.Write.Actions.{Action, verb, action_name, dimension, is_active, state_key}
use systemd_ops.Write.Control.{payload_str, observe, apply_control, applied, diff_json, change}
use systemd_ops.Write.Guards.{planned_action, planned_state, verb_command, after_look, after_verb}

-- What the answer's `diff` says of a key.
abbrev pub told : Value → Str → Str → Option Str
told v key side = and_then (get v (codes "diff")) (λ d. and_then (get d key) (λ c. get_str c side))

module _ (plan : SealedPlan) (action : Action) (observed sub : Str) (after : Str × Str)
    (changes : List Str) where
  applied_unit :
      get_str (applied plan action observed sub after changes) (codes "unit") ≡ some plan.unit
  unfolding applied get_str get str_eq
  applied_unit = refl

  applied_action :
      get_str (applied plan action observed sub after changes) (codes "action")
      ≡ some (action_name action)
  unfolding applied get_str get str_eq
  applied_action = refl

-- The states before and after, by the action's key, and the sub-state after where there is one.
applied-told :
    (plan : SealedPlan) (action : Action) (observed sub : Str) (after : Str × Str)
    (changes : List Str)
    → let v = applied plan action observed sub after changes in
      (told v (state_key action) (codes "before") ≡ some observed)
      × (told v (state_key action) (codes "after") ≡ some (after.0))
      × (is_active (dimension action) ≡ true
          → told v (codes "sub") (codes "after") ≡ some (after.1))
unfolding applied diff_json change get get_str str_eq state_key dimension
applied-told plan Action.start observed sub after changes = (refl, refl, λ a. refl)
applied-told plan Action.stop observed sub after changes = (refl, refl, λ a. refl)
applied-told plan Action.restart observed sub after changes = (refl, refl, λ a. refl)
applied-told plan Action.reload observed sub after changes = (refl, refl, λ a. refl)
applied-told plan Action.reset_failed observed sub after changes = (refl, refl, λ a. refl)
applied-told plan Action.enable observed sub after changes = (refl, refl, λ a. cc)
applied-told plan Action.disable observed sub after changes = (refl, refl, λ a. cc)
applied-told plan Action.mask observed sub after changes = (refl, refl, λ a. cc)
applied-told plan Action.unmask observed sub after changes = (refl, refl, λ a. cc)
applied-told plan Action.log_level observed sub after changes = (refl, refl, λ a. cc)
applied-told plan Action.log_target observed sub after changes = (refl, refl, λ a. cc)

module _ (ctl : Systemctl) (m : Manager) (prefix : Option (List Str)) (plan : SealedPlan) where
  -- The unit and the action of the plan, and its state as it was found before and after the verb.
  pub record Tells (before : List Command) (v : Value) : Type 0 where
    pub action : Action
    pub seen : Str × Str
    pub last : Str × Str
    pub parsed : planned_action ctl m prefix plan ≡ some action
    pub allowed : require_write_unit prefix plan.unit ≡ ok tt
    pub found_before : (observe ctl m action plan.unit before).0 ≡ ok seen
    pub found_after :
        (observe ctl m action plan.unit (after_verb ctl m prefix plan action before)).0 ≡ ok last
    pub tells_unit : get_str v (codes "unit") ≡ some plan.unit
    pub tells_action : get_str v (codes "action") ≡ some (action_name action)
    pub tells_before : told v (state_key action) (codes "before") ≡ some (seen.0)
    pub tells_after : told v (state_key action) (codes "after") ≡ some (last.0)
    pub tells_sub :
        is_active (dimension action) ≡ true → told v (codes "sub") (codes "after") ≡ some (last.1)

  -- The verb, and what follows it.
  abbrev applied_from : Action → Step Value
  applied_from action = do
    changes ← apply_verb ctl m (verb action) plan.unit (payload_str plan (codes "value"))
    after ← observe ctl m action plan.unit
    give (
        ok (
          applied plan action (planned_state ctl m prefix plan)
            (unwrap_or (payload_str plan (codes "sub")) []) after changes))

  answered :
      (before : List Command) (action : Action) (seen : Str × Str)
      → planned_action ctl m prefix plan ≡ some action
      → require_write_unit prefix plan.unit ≡ ok tt
      → (observe ctl m action plan.unit before).0 ≡ ok seen
      → seen.0 ≡ planned_state ctl m prefix plan
      → {v : Value} {log : List Command}
      → applied_from action (after_look ctl m prefix plan action before) ≡ (ok v, log)
      → Tells before v
  unfolding apply_verb systemctl
  answered before action seen e w o same {v} h =
      elim (Result-cases (
        ctl.output (after_look ctl m prefix plan action before)
          (verb_command ctl m prefix plan action))) [
            | inr (msg, r) ↦ let now = rw r at h in absurd (cc)
            | inl (out, r) ↦
                elim (Result-cases
                  (observe ctl m action plan.unit (after_verb ctl m prefix plan action before)).0) [
                    | inr (msg, l) ↦ let now = rw (r, l) at h in absurd (cc)
                    | inl (last, l) ↦
                        let now = rw (r, l) at h in
                        let sub = unwrap_or (payload_str plan (codes "sub")) [] in
                        let changes = collect_lines (out.0) ++ collect_lines (out.1) in
                        let says =
                          applied-told plan action (planned_state ctl m prefix plan) sub last
                            changes in
                        subst (Tells before) (ok-injective (ap (λ p. p.0) now)) (record {
                          action = action;
                          seen = seen;
                          last = last;
                          parsed = e;
                          allowed = w;
                          found_before = o;
                          found_after = l;
                          tells_unit = applied_unit plan action _ sub last changes;
                          tells_action = applied_action plan action _ sub last changes;
                          tells_before = says.0 ∙ ap some (sym same);
                          tells_after = says.1;
                          tells_sub = says.2;
                        })
                  ]
          ]

  -- An application that answers tells the unit and the action of its plan, the state in which the unit
  -- was found before the verb ran, and the state, and for an active state the sub-state, in which it
  -- was found after. The write prefix allows the unit.
  pub apply_control-Tells :
      (before : List Command) {v : Value} {log : List Command}
      → apply_control ctl m prefix plan before ≡ (ok v, log)
      → Tells before v
  unfolding apply_control apply_verb systemctl
  apply_control-Tells before {v} h = elim (Option-cases (planned_action ctl m prefix plan)) [
    | inl e ↦ let now = rw e at h in absurd (cc)
    | inr (action, e) ↦ elim (Result-cases (require_write_unit prefix plan.unit)) [
      | inr (msg, w) ↦ let now = rw (e, w) at h in absurd (cc)
      | inl (u, w) ↦ elim (Result-cases (observe ctl m action plan.unit before).0) [
        | inr (msg, o) ↦ let now = rw (e, w, o) at h in absurd (cc)
        | inl (seen, o) ↦ elim (Bool-cases (str_eq seen.0 (planned_state ctl m prefix plan))) [
          | inr differ ↦ let now = rw (e, w, o, differ) at h in absurd (cc)
          | inl same ↦
              answered before action seen e w o
                ((str_eq_iff seen.0 (planned_state ctl m prefix plan)).0 same)
                (rw (e, w, o, same) at h)
        ]
      ]
    ]
  ]
