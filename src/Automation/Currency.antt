-- ===== src/Automation/Currency.antt =====
-- What is current of an operation in src/automation.rs: its iteration, its blocker, its checkpoint.
use systemd_ops.Base.{
  Bool, true, false, not, ◌&&◌, ◌||◌, Option, none, some, Str, codes, str_eq, is_empty,
}
use systemd_ops.Json.{Value, null, get, get_str, as_str, as_bool, and_then, unwrap_or, is_null}
use systemd_ops.Operations.Spec.{or_else}

abbrev pub is_present : Option Value → Bool
is_present none = false
is_present (some v) = not (is_null v)

unfoldable pub active_iteration : Value → Bool
active_iteration operation =
    is_present (and_then (get operation (codes "operator")) (λ o. get o (codes "active_iteration")))

abbrev pub automation_of : Value → Value
automation_of operation = unwrap_or (get operation (codes "automation")) null

abbrev pub same_text : Option Str → Option Str → Bool
same_text none none = true
same_text none (some t) = false
same_text (some s) none = false
same_text (some s) (some t) = str_eq s t

abbrev pub is_some {ℓ} : {A : Type ℓ} → Option A → Bool
is_some none = false
is_some (some a) = true

abbrev pub is_true : Option Bool → Bool
is_true none = false
is_true (some b) = b

abbrev pub observed_input : Value → Option Str
observed_input automation =
    and_then (get automation (codes "observation")) (λ o. get_str o (codes "input_fingerprint"))

unfoldable pub processed_is_current_blocked : Value → Bool
processed_is_current_blocked operation =
    let automation = automation_of operation in
    let processed = unwrap_or (get automation (codes "processed")) null in
    not (is_true (and_then (get processed (codes "legacy")) as_bool))
    && (same_text (get_str processed (codes "outcome")) (some (codes "blocked"))
        && (is_some (observed_input automation)
            && same_text (get_str processed (codes "input_fingerprint"))
                (observed_input automation)))

abbrev pub blocks_input : Option Str → Option Str → Bool
blocks_input none observed = true
blocks_input (some input) observed = same_text observed (some input)

unfoldable pub blocker_is_current : Value → Bool
blocker_is_current operation =
    let automation = automation_of operation in
    let blocker = unwrap_or (get automation (codes "blocker")) null in
    processed_is_current_blocked operation
    || (not (is_null blocker)
        && blocks_input (get_str blocker (codes "input_fingerprint")) (observed_input automation))

abbrev pub same_generation : Option Str → Option Str → Bool
same_generation none checkpointed = true
same_generation (some generation) checkpointed = same_text checkpointed (some generation)

abbrev pub has_text : Option Str → Bool
has_text none = false
has_text (some s) = not (is_empty s)

unfoldable pub checkpoint_is_current : Value → Bool
checkpoint_is_current operation =
    let automation = automation_of operation in
    let observation = unwrap_or (get automation (codes "observation")) null in
    let checkpoint = unwrap_or (get automation (codes "checkpoint")) null in
    let input = get_str observation (codes "input_fingerprint") in
    let checkpointed =
      and_then
        (or_else (get checkpoint (codes "input_fingerprint"))
          (get checkpoint (codes "fingerprint")))
        as_str in
    is_true (and_then (get checkpoint (codes "present")) as_bool)
    && (is_some input
        && (same_text checkpointed input
            && (same_generation (get_str observation (codes "generation"))
                  (get_str checkpoint (codes "generation"))
                && (not (
                      is_true
                        (and_then (get automation (codes "output_revision_required")) as_bool))
                    || has_text (get_str checkpoint (codes "output_revision"))))))

-- An operation with an agent, and one whose automation is completed.
unfoldable pub agent_backed : Value → Bool
agent_backed operation = is_some (get_str (automation_of operation) (codes "agent"))

unfoldable pub is_completed : Value → Bool
is_completed operation =
    same_text
      (and_then (get (automation_of operation) (codes "lifecycle"))
        (λ l. get_str l (codes "status")))
      (some (codes "completed"))
