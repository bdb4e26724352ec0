-- ===== src/Write/Actions.antt =====
-- The control actions of src/write.rs and what is known of each: its words, the state that it
-- changes, its inverse and the state that it leads to.
use systemd_ops.Base.{
  ◌≡◌, refl, subst, Bool, true, false, Option, none, some, List, [], ◌∷◌, if◌then◌else◌, Str, codes,
  str_eq,
}
use systemd_ops.Json.{Value, null, str, object, get_str}
use systemd_ops.Systemd.Names.{Surface, full, compact}

pub data Action : Type 0 where
  start stop restart reload enable disable reset_failed mask unmask log_level log_target : Action

pub data Dimension : Type 0 where
  active unit_file log : Dimension

unfoldable pub verb : Action → Str
verb start = codes "start"
verb stop = codes "stop"
verb restart = codes "restart"
verb reload = codes "reload"
verb enable = codes "enable"
verb disable = codes "disable"
verb reset_failed = codes "reset-failed"
verb mask = codes "mask"
verb unmask = codes "unmask"
verb log_level = codes "service-log-level"
verb log_target = codes "service-log-target"

unfoldable pub action_name : Action → Str
unfolding verb
action_name log_level = codes "log-level"
action_name log_target = codes "log-target"
action_name other = verb other

abbrev pub all_actions : List Action
all_actions =
    start ∷ stop ∷ restart ∷ reload ∷ enable ∷ disable ∷ reset_failed ∷ mask ∷ unmask ∷ log_level
    ∷ log_target ∷ []

-- The first of the actions that has the name.
pub find_action : List Action → Str → Option Action
find_action [] s = none
find_action (a ∷ rest) s =
    let later = find_action rest s in if str_eq s (action_name a) then some a else later

unfoldable pub action_parse : Str → Option Action
unfolding find_action action_name
action_parse s = find_action all_actions s

unfoldable pub dimension : Action → Dimension
dimension start = active
dimension stop = active
dimension restart = active
dimension reload = active
dimension reset_failed = active
dimension enable = unit_file
dimension disable = unit_file
dimension mask = unit_file
dimension unmask = unit_file
dimension log_level = log
dimension log_target = log

abbrev pub is_log : Dimension → Bool
is_log log = true
is_log _ = false

abbrev pub is_active : Dimension → Bool
is_active active = true
is_active _ = false

pub takes_value : Action → Bool
unfolding dimension
takes_value a = is_log (dimension a)

pub inverse : Action → Option Action
inverse start = some stop
inverse stop = some start
inverse enable = some disable
inverse disable = some enable
inverse mask = some unmask
inverse unmask = some mask
inverse log_level = some log_level
inverse log_target = some log_target
inverse _ = none

unfoldable pub predicted : Action → Option Str
predicted start = some (codes "active")
predicted restart = some (codes "active")
predicted reload = some (codes "active")
predicted stop = some (codes "inactive")
predicted enable = some (codes "enabled")
predicted disable = some (codes "disabled")
predicted mask = some (codes "masked")
predicted _ = none

unfoldable pub state_key : Action → Str
state_key log_level = codes "log_level"
state_key log_target = codes "log_target"
state_key start = codes "active"
state_key stop = codes "active"
state_key restart = codes "active"
state_key reload = codes "active"
state_key reset_failed = codes "active"
state_key _ = codes "unit_file_state"

pub visible_on_surface : Surface → Action → Bool
visible_on_surface full a = true
visible_on_surface compact start = true
visible_on_surface compact stop = true
visible_on_surface compact restart = true
visible_on_surface compact reload = true
visible_on_surface compact enable = true
visible_on_surface compact disable = true
visible_on_surface compact reset_failed = true
visible_on_surface compact _ = false

-- The rollback that an inverse action stands for.
pub rollback_of : Option Action → Str → Value
unfolding takes_value action_name
rollback_of none observed = null
rollback_of (some inv) observed =
    if takes_value inv
    then object ((codes "action", str (action_name inv)) ∷ (codes "value", str observed) ∷ [])
    else object ((codes "action", str (action_name inv)) ∷ [])

unfoldable pub rollback_json : Action → Str → Value
unfolding rollback_of inverse
rollback_json a observed = rollback_of (inverse a) observed

word_of : {v w : Str} → some v ≡ some w → v ≡ w
word_of h = cc

-- The rollback of an action, if there is one, names the action that undoes it: one of the same
-- state, whose own inverse is the first.
pub rollback_json-inverse :
    (a : Action) (observed : Str) {word : Str}
    → get_str (rollback_json a observed) (codes "action") ≡ some word
    → (b : Action) × (action_parse word ≡ some b)
      × (inverse b ≡ some a)
      × (state_key b ≡ state_key a)
      × (dimension b ≡ dimension a)
unfolding rollback_json action_parse get_str str_eq state_key
rollback_json-inverse start observed h =
    (stop, subst (λ w. action_parse w ≡ some stop) (word_of h) refl, refl, refl, refl)
rollback_json-inverse stop observed h =
    (start, subst (λ w. action_parse w ≡ some start) (word_of h) refl, refl, refl, refl)
rollback_json-inverse restart observed h = cc
rollback_json-inverse reload observed h = cc
rollback_json-inverse enable observed h =
    (disable, subst (λ w. action_parse w ≡ some disable) (word_of h) refl, refl, refl, refl)
rollback_json-inverse disable observed h =
    (enable, subst (λ w. action_parse w ≡ some enable) (word_of h) refl, refl, refl, refl)
rollback_json-inverse reset_failed observed h = cc
rollback_json-inverse mask observed h =
    (unmask, subst (λ w. action_parse w ≡ some unmask) (word_of h) refl, refl, refl, refl)
rollback_json-inverse unmask observed h =
    (mask, subst (λ w. action_parse w ≡ some mask) (word_of h) refl, refl, refl, refl)
rollback_json-inverse log_level observed h =
    (log_level, subst (λ w. action_parse w ≡ some log_level) (word_of h) refl, refl, refl, refl)
rollback_json-inverse log_target observed h =
    (log_target, subst (λ w. action_parse w ≡ some log_target) (word_of h) refl, refl, refl, refl)
