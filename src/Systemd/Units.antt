-- ===== src/Systemd/Units.antt =====
-- What src/systemd.rs asks `systemctl` about a unit, and the verbs that it runs. `show` is the run
-- of its own that `show_one` makes, outside of a view.
use systemd_ops.Base.{
  not, Option, none, some, List, [], ◌∷◌, ◌++◌, map, if◌then◌else◌, retain, Str, codes, str_eq,
  is_empty, trim, split_once, lines, join, ok, ensure,
}
use systemd_ops.Systemd.Names.{Manager}
use systemd_ops.Systemd.Runs.{Command, Systemctl, Step, ◌>>=◌, give, systemctl}
use systemd_ops.Json.{unwrap_or}

-- `key_values`.
unfoldable pub key_values : List Str → List (Str × Str)
unfolding split_once
key_values [] = []
key_values (line ∷ rest) = elim (split_once b'=' line) [
  | none ↦ key_values rest
  | some kv ↦ kv ∷ key_values rest
]

-- `props.get(key)`: of two values of a key the later one is in force.
unfoldable pub prop : Str → List (Str × Str) → Option Str
unfolding str_eq
prop key [] = none
prop key ((k, v) ∷ rest) = elim (prop key rest) [
  | some w ↦ some w
  | none ↦ if str_eq k key then some v else none
]

pub collect_lines : Str → List Str
unfolding lines trim
collect_lines out = retain (λ l. not (is_empty l)) (map trim (lines out))

abbrev pub show_args : Str → List Str → Command
show_args name [] = codes "show" ∷ codes "--no-pager" ∷ codes "--" ∷ name ∷ []
show_args name (p ∷ ps) =
    codes "show"
    ∷ codes "--no-pager"
    ∷ (codes "--property=" ++ join (codes ",") (p ∷ ps))
    ∷ codes "--"
    ∷ name
    ∷ []

abbrev pub verb_args : Str → Str → Option Str → Command
verb_args verb unit none = verb ∷ codes "--no-pager" ∷ codes "--" ∷ unit ∷ []
verb_args verb unit (some value) = verb ∷ codes "--no-pager" ∷ codes "--" ∷ unit ∷ value ∷ []

module _ (ctl : Systemctl) (m : Manager) where
  unfoldable pub show : Str → List Str → Step (List (Str × Str))
  show name properties = do
    out ← systemctl ctl m (show_args name properties)
    give (ok (key_values (lines (out.0))))

  unfoldable pub ensure_unit_known : Str → Step (Unit {0})
  ensure_unit_known name = do
    props ← show name (codes "LoadState" ∷ [])
    give (
        ensure (not (str_eq (unwrap_or (prop (codes "LoadState") props) []) (codes "not-found")))
          (codes "no such unit: " ++ name))

  unfoldable pub unit_state : Str → Step (Str × Str)
  unit_state name = do
    props ← show name (codes "ActiveState" ∷ codes "SubState" ∷ [])
    give (
        ok (
          unwrap_or (prop (codes "ActiveState") props) (codes "unknown"),
          unwrap_or (prop (codes "SubState") props) (codes "unknown"),
        ))

  pub unit_file_state : Str → Step Str
  unit_file_state name = do
    props ← show name (codes "UnitFileState" ∷ [])
    give (ok (unwrap_or (prop (codes "UnitFileState") props) []))

  pub service_log_get : Str → Str → Step Str
  service_log_get verb unit = do
    out ← systemctl ctl m (verb_args verb unit none)
    give (ok (trim (out.0)))

  unfoldable pub apply_verb : Str → Str → Option Str → Step (List Str)
  apply_verb verb unit value = do
    out ← systemctl ctl m (verb_args verb unit value)
    give (ok (collect_lines (out.0) ++ collect_lines (out.1)))
