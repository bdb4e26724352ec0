-- ===== src/Operator/Parse.antt =====
-- `parse_surface` of src/operator.rs, on the JSON value of the bytes.
use systemd_ops.Base.{
  ℕ, ◌^◌, Bool, true, false, Option, none, some, List, [], ◌∷◌, ◌++◌, ltb, if◌then◌else◌, take, Str,
  Bytes, codes, Result, ok, err, ◌>>=◌, ◌>>◌, ensure, ok_or,
}
use systemd_ops.Json.{
  ℤ, Value, null, int, float, pos, negsuc, array, obj, get, get_str, as_bool, as_i64, list_of,
  and_then,
}
use systemd_ops.Operator.Surface.{
  OperatorActivity, ActiveIteration, OperatorIteration, OperatorSurface, surface_version,
}

abbrev pub max_iterations : ℕ
max_iterations = 20

-- `filter(|s| !s.is_empty())`.
abbrev pub not_empty : Option Str → Option Str
not_empty none = none
not_empty (some []) = none
not_empty (some (c ∷ s)) = some (c ∷ s)

unfoldable pub required_string : Value → Str → Str → Result Str
unfolding get_str
required_string v key context =
    ok_or (not_empty (get_str v key)) (context ++ (codes " missing " ++ key))

unfoldable pub opt_string : Value → Str → Option Str
unfolding get_str
opt_string v key = not_empty (get_str v key)

abbrev pub in_i32 : ℤ → Option ℤ
in_i32 (pos n) = if ltb n (2 ^ 31) then some (pos n) else none
in_i32 (negsuc n) = if ltb n (2 ^ 31) then some (negsuc n) else none

unfoldable pub exit_code_of : Option Value → Result (Option ℤ)
exit_code_of none = ok none
exit_code_of (some null) = ok none
exit_code_of (some (int n)) = do
  code ←
      ok_or (and_then (as_i64 (int n)) in_i32)
        (codes "iteration exit_code must be a 32-bit integer")
  ok (some code)
exit_code_of (some (float text)) = err (codes "iteration exit_code must be a 32-bit integer")
exit_code_of (some _) = err (codes "iteration exit_code must be an integer or null")

abbrev pub is_object : Value → Bool
is_object (obj fs) = true
is_object _ = false

unfoldable pub parse_iteration : Value → Result OperatorIteration
unfolding get
parse_iteration v = do
  ensure (is_object v) (codes "iteration entry must be an object")
  exit_code ← exit_code_of (get v (codes "exit_code"))
  id ← required_string v (codes "id") (codes "iteration")
  started_at ← required_string v (codes "started_at") (codes "iteration")
  reconsolidated ←
      ok_or (and_then (get v (codes "reconsolidated")) as_bool)
        (codes "iteration missing reconsolidated")
  ok (record {
    id = id;
    started_at = started_at;
    finished_at = opt_string v (codes "finished_at");
    exit_code = exit_code;
    reconsolidated = reconsolidated;
    headline = opt_string v (codes "headline");
    summary = opt_string v (codes "summary");
    outcome = opt_string v (codes "outcome");
    route = opt_string v (codes "route");
  })

-- `items.iter().map(parse).collect::<Result<Vec<_>, _>>()`.
unfoldable pub collect {ℓ} : {A : Type ℓ} → (Value → Result A) → List Value → Result (List A)
collect parse [] = ok []
collect parse (v ∷ vs) = do first ← parse v; rest ← collect parse vs; ok (first ∷ rest)

unfoldable pub parse_entry : Value → Result OperatorActivity
parse_entry v = do
  ensure (is_object v) (codes "activity entry must be an object")
  at ← required_string v (codes "at") (codes "activity entry")
  text ← required_string v (codes "text") (codes "activity entry")
  ok (record { at = at; text = text })

unfoldable pub parse_activity : Option Value → Result (List OperatorActivity)
parse_activity none = ok []
parse_activity (some null) = ok []
parse_activity (some (array vs)) = collect parse_entry (list_of vs)
parse_activity (some _) = err (codes "operator activity must be an array of {at,text}")

unfoldable pub parse_active : Option Value → Result (Option ActiveIteration)
parse_active none = ok none
parse_active (some null) = ok none
parse_active (some (obj fs)) = do
  id ← required_string (obj fs) (codes "id") (codes "active iteration")
  started_at ← required_string (obj fs) (codes "started_at") (codes "active iteration")
  ok (
      some (record {
        id = id;
        started_at = started_at;
        observed_updated_at = opt_string (obj fs) (codes "observed_updated_at");
        reported_at = opt_string (obj fs) (codes "reported_at");
      }))
parse_active (some _) = err (codes "active_iteration must be an object or null")

unfoldable pub parse_iterations : Option Value → Result (List OperatorIteration)
parse_iterations none = ok []
parse_iterations (some null) = ok []
parse_iterations (some (array vs)) = collect parse_iteration (list_of vs)
parse_iterations (some _) = err (codes "iterations must be an array")

unfoldable pub surface_of : Value → Result OperatorSurface
unfolding get
surface_of v = do
  ensure (is_object v) (codes "operator state must be an object")
  activity ← parse_activity (get v (codes "activity"))
  active_iteration ← parse_active (get v (codes "active_iteration"))
  iterations ← parse_iterations (get v (codes "iterations"))
  ok (record {
    version = surface_version;
    about = opt_string v (codes "about");
    headline = opt_string v (codes "headline");
    body = opt_string v (codes "body");
    updated_at = opt_string v (codes "updated_at");
    basis_revision = opt_string v (codes "basis_revision");
    outcome = opt_string v (codes "outcome");
    route = opt_string v (codes "route");
    activity = activity;
    active_iteration = active_iteration;
    iterations = take max_iterations iterations;
  })

-- `map_err`.
abbrev pub map_err {ℓ} : {A : Type ℓ} → (Str → Str) → Result A → Result A
map_err f (ok a) = ok a
map_err f (err e) = err (f e)

-- The bytes are read by serde_json, with its message on a failure.
pub parse_surface : (Bytes → Result Value) → Bytes → Result OperatorSurface
parse_surface from_slice bytes = do
  value ← map_err (λ e. codes "malformed operator state: " ++ e) (from_slice bytes)
  surface_of value
