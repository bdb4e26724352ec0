-- ===== src/Operator/RoundTrip.antt =====
-- A surface that is written as JSON is read back.
use systemd_ops.Base.{
  ℕ, zero, suc, ◌^◌, ◌≤◌, ◌<◌, ◌≡◌, refl, ap, false, Option, none, some, List, [], ◌∷◌, map, arith,
  length, take, All, Str, str_eq, is_empty, Result, ok,
}
use systemd_ops.Json.{ℤ, pos, negsuc, Value, items, list_of, opt_str, as_str, get_str, get}
use systemd_ops.Operator.Surface.{
  OperatorActivity, ActiveIteration, OperatorIteration, OperatorSurface, surface_version,
  activity_json, active_json, opt_int, iteration_json, surface_json,
}
use systemd_ops.Operator.Parse.{
  max_iterations, not_empty, required_string, opt_string, exit_code_of, parse_iteration, collect,
  parse_entry, parse_activity, parse_active, parse_iterations, surface_of,
}

-- A text that is not empty, one that is absent or not empty, and a 32-bit integer.
abbrev pub IsText : Str → Type 0
IsText s = is_empty s ≡ false

abbrev pub IsTextOption : Option Str → Type 0
IsTextOption none = Unit
IsTextOption (some s) = IsText s

abbrev pub IsExitCode : Option ℤ → Type 0
IsExitCode none = Unit
IsExitCode (some (pos n)) = n < 2 ^ 31
IsExitCode (some (negsuc n)) = n < 2 ^ 31

pub record IsActivity (a : OperatorActivity) : Type 0 where
  pub at_text : IsText a.at
  pub text_text : IsText a.text

pub record IsActive (it : ActiveIteration) : Type 0 where
  pub id_text : IsText it.id
  pub started_text : IsText it.started_at
  pub observed_text : IsTextOption it.observed_updated_at
  pub reported_text : IsTextOption it.reported_at

pub record IsIteration (it : OperatorIteration) : Type 0 where
  pub id_text : IsText it.id
  pub started_text : IsText it.started_at
  pub finished_text : IsTextOption it.finished_at
  pub code_range : IsExitCode it.exit_code
  pub headline_text : IsTextOption it.headline
  pub summary_text : IsTextOption it.summary
  pub outcome_text : IsTextOption it.outcome
  pub route_text : IsTextOption it.route

abbrev pub IsActiveOption : Option ActiveIteration → Type 0
IsActiveOption none = Unit
IsActiveOption (some it) = IsActive it

-- A surface that the code keeps: no text is empty, exit codes have 32 bits, at most 20 iterations.
pub record IsSurface (s : OperatorSurface) : Type 0 where
  pub version_one : s.version ≡ surface_version
  pub about_text : IsTextOption s.about
  pub headline_text : IsTextOption s.headline
  pub body_text : IsTextOption s.body
  pub updated_text : IsTextOption s.updated_at
  pub basis_text : IsTextOption s.basis_revision
  pub outcome_text : IsTextOption s.outcome
  pub route_text : IsTextOption s.route
  pub activity_entries : All IsActivity s.activity
  pub active_entry : IsActiveOption s.active_iteration
  pub iteration_entries : All IsIteration s.iterations
  pub iterations_few : length s.iterations ≤ max_iterations

not_empty_text : (s : Str) → IsText s → not_empty (some s) ≡ some s
not_empty_text [] h = cc
not_empty_text (c ∷ s) h = refl

exit_code_of-opt_int : (o : Option ℤ) → IsExitCode o → exit_code_of (some (opt_int o)) ≡ ok o
unfolding exit_code_of
exit_code_of-opt_int none h = refl
exit_code_of-opt_int (some (pos n)) h = ground arith
exit_code_of-opt_int (some (negsuc n)) h = ground arith

not_empty-opt_str : (o : Option Str) → IsTextOption o → not_empty (as_str (opt_str o)) ≡ o
not_empty-opt_str none h = refl
not_empty-opt_str (some s) h = not_empty_text s h

parse_iteration-iteration_json :
    (it : OperatorIteration) → IsIteration it → parse_iteration (iteration_json it) ≡ ok it
unfolding parse_iteration required_string opt_string str_eq
parse_iteration-iteration_json it h =
    rw
      (
        exit_code_of-opt_int it.exit_code h.code_range,
        not_empty_text it.id h.id_text,
        not_empty_text it.started_at h.started_text,
        not_empty-opt_str it.finished_at h.finished_text,
        not_empty-opt_str it.headline h.headline_text,
        not_empty-opt_str it.summary h.summary_text,
        not_empty-opt_str it.outcome h.outcome_text,
        not_empty-opt_str it.route h.route_text,
      )
      refl

parse_entry-activity_json :
    (a : OperatorActivity) → IsActivity a → parse_entry (activity_json a) ≡ ok a
unfolding parse_entry required_string get_str get str_eq
parse_entry-activity_json a h =
    rw (not_empty_text a.at h.at_text, not_empty_text a.text h.text_text) refl

-- A list whose items are read back is read back.
collect-map {ℓ κ} :
    {A : Type ℓ} (P : A → Type κ) (parse : Value → Result A) (print : A → Value)
    → ((a : A) → P a → parse (print a) ≡ ok a)
    → (l : List A) → All P l
    → collect parse (list_of (items (map print l))) ≡ ok l
unfolding collect
collect-map P parse print back [] h = refl
collect-map P parse print back (a ∷ l) h =
    rw (back a h.0, collect-map P parse print back l h.1) refl

parse_active-active_json :
    (o : Option ActiveIteration) → IsActiveOption o → parse_active (some (active_json o)) ≡ ok o
unfolding parse_active required_string opt_string get_str get str_eq
parse_active-active_json none h = refl
parse_active-active_json (some it) h =
    rw
      (
        not_empty_text it.id h.id_text,
        not_empty_text it.started_at h.started_text,
        not_empty-opt_str it.observed_updated_at h.observed_text,
        not_empty-opt_str it.reported_at h.reported_text,
      )
      refl

take_all {ℓ} : {A : Type ℓ} (n : ℕ) (l : List A) → length l ≤ n → take n l ≡ l
take_all zero [] h = refl
take_all zero (x ∷ l) h = absurd (omega arith)
take_all (suc n) [] h = refl
take_all (suc n) (x ∷ l) h = ap (◌∷◌ x) (take_all n l (omega arith))

-- Every surface that the code keeps is read back from its JSON as it was.
pub surface_of-surface_json :
    (s : OperatorSurface) → IsSurface s → surface_of (surface_json s) ≡ ok s
unfolding surface_of surface_json opt_string get_str parse_activity parse_iterations str_eq
surface_of-surface_json s h =
    rw
      (
        collect-map IsActivity parse_entry activity_json parse_entry-activity_json s.activity
            h.activity_entries,
        parse_active-active_json s.active_iteration h.active_entry,
        collect-map IsIteration parse_iteration iteration_json parse_iteration-iteration_json
            s.iterations h.iteration_entries,
        not_empty-opt_str s.about h.about_text,
        not_empty-opt_str s.headline h.headline_text,
        not_empty-opt_str s.body h.body_text,
        not_empty-opt_str s.updated_at h.updated_text,
        not_empty-opt_str s.basis_revision h.basis_text,
        not_empty-opt_str s.outcome h.outcome_text,
        not_empty-opt_str s.route h.route_text,
        take_all max_iterations s.iterations h.iterations_few,
        ← h.version_one,
      )
      refl
