-- ===== src/Operator/Iterations.antt =====
-- The iterations and the activity of a surface in src/operator.rs, and what a report writes.
use systemd_ops.Base.{
  ℕ, ◌-◌, Bool, true, false, ◌&&◌, ◌||◌, Option, none, some, [], ◌∷◌, ◌++◌, ltb, ◌==◌,
  if◌then◌else◌, length, take, drop, Str, codes, str_eq, is_empty, trim, Result, ok, err, ◌>>=◌,
  ◌>>◌, ensure, ok_or,
}
use systemd_ops.Json.{ℤ, pos, negsuc}
use systemd_ops.Operator.{strict_single_line}
use systemd_ops.Operator.Surface.{
  OperatorActivity, ActiveIteration, OperatorIteration, OperatorSurface,
}
use systemd_ops.Operator.Parse.{max_iterations}

unfoldable pub push_iteration : OperatorSurface → OperatorIteration → OperatorSurface
push_iteration s it = record s { iterations = take max_iterations (it ∷ s.iterations) }

abbrev pub abandoned_iteration : ActiveIteration → OperatorIteration
abandoned_iteration it = record {
  id = it.id;
  started_at = it.started_at;
  finished_at = none;
  exit_code = none;
  reconsolidated = false;
  headline = none;
  summary = none;
  outcome = none;
  route = none;
}

-- `surface.active_iteration.take()`, with the iteration pushed if there was one.
unfoldable pub abandon : OperatorSurface → Option ActiveIteration → OperatorSurface
unfolding push_iteration
abandon s none = s
abandon s (some it) = push_iteration s (abandoned_iteration it)

unfoldable pub start_iteration : OperatorSurface → Str → Str → OperatorSurface
unfolding abandon
start_iteration s id started_at = record (abandon s s.active_iteration) {
  active_iteration = some (record {
    id = id;
    started_at = started_at;
    observed_updated_at = s.updated_at;
    reported_at = none;
  });
}

abbrev pub is_zero : ℤ → Bool
is_zero (pos n) = n == 0
is_zero (negsuc n) = false

abbrev pub is_some {ℓ} : {A : Type ℓ} → Option A → Bool
is_some none = false
is_some (some a) = true

-- `flag.then(|| o).flatten()`.
abbrev pub when {ℓ} : {A : Type ℓ} → Bool → Option A → Option A
when true o = o
when false o = none

abbrev pub finished_iteration :
    OperatorSurface → ActiveIteration → ℤ → Str → Bool → OperatorIteration
finished_iteration s it exit_code finished_at reconsolidated = record {
  id = it.id;
  started_at = it.started_at;
  finished_at = some finished_at;
  exit_code = some exit_code;
  reconsolidated = reconsolidated;
  headline = when reconsolidated s.headline;
  summary = when reconsolidated s.body;
  outcome = when reconsolidated s.outcome;
  route = when reconsolidated s.route;
}

pub other_iteration : Str → Str → Str
other_iteration actual asked =
    codes "active iteration is '" ++ (actual ++ (codes "', not '" ++ (asked ++ codes "'")))

-- The surface after a finish, which an error leaves as it was, and the result.
unfoldable pub finish_active :
    OperatorSurface → Option ActiveIteration → Str → ℤ → Str → Result Bool × OperatorSurface
unfolding push_iteration
finish_active s none iteration_id exit_code finished_at =
    (err (codes "no active iteration to finish"), s)
finish_active s (some it) iteration_id exit_code finished_at =
    let reconsolidated = is_zero exit_code && is_some it.reported_at in
    if str_eq it.id iteration_id
    then (
      ok reconsolidated,
      push_iteration (record s { active_iteration = none })
          (finished_iteration s it exit_code finished_at reconsolidated),
    )
    else (err (other_iteration it.id iteration_id), s)

unfoldable pub finish_iteration : OperatorSurface → Str → ℤ → Str → Result Bool × OperatorSurface
unfolding finish_active
finish_iteration s iteration_id exit_code finished_at =
    finish_active s s.active_iteration iteration_id exit_code finished_at

abbrev pub max_activity : ℕ
max_activity = 100

-- `activity.push(..)`, then `drain(0..len - MAX_ACTIVITY)` if there are more.
unfoldable pub push_activity : OperatorSurface → OperatorActivity → OperatorSurface
push_activity s entry =
    let grown = s.activity ++ entry ∷ [] in
    record s {
      activity =
          if ltb max_activity (length grown)
          then drop (length grown - max_activity) grown
          else grown;
    }

-- The outcome of a report and its route.
pub record Verdict : Type 0 where
  pub outcome : Str
  pub route : Option Str

abbrev pub is_route : Str → Bool
is_route r = str_eq r (codes "self") || (str_eq r (codes "parent") || str_eq r (codes "lead"))

unfoldable pub blocked_route : Option Str → Result Str
blocked_route none = err (codes "BLOCKED reports require route=self|parent|lead")
blocked_route (some r) = do
  route ← strict_single_line (codes "route") r 16
  ensure (is_route route) (codes "unknown blocker route (known: self, parent, lead)")
  ok route

unfoldable pub ready_verdict : Str → Option Str → Result Verdict
ready_verdict outcome none = ok (record { outcome = outcome; route = none })
ready_verdict outcome (some r) = err (codes "READY reports must not include a route")

unfoldable pub blocked_verdict : Str → Option Str → Result Verdict
blocked_verdict outcome route = do
  r ← blocked_route route
  ok (record { outcome = outcome; route = some r })

unfoldable pub verdict_of : Str → Option Str → Result Verdict
verdict_of outcome route =
    if str_eq outcome (codes "ready")
    then ready_verdict outcome route
    else if str_eq outcome (codes "blocked")
    then blocked_verdict outcome route
    else if str_eq outcome (codes "failed")
    then err (codes "FAILED is a wrapper outcome, not an automation_report outcome")
    else err (codes "unknown report outcome '" ++ (outcome ++ codes "' (known: ready, blocked)"))

-- `outcome.map(str::trim).filter(|value| !value.is_empty())`.
abbrev pub trimmed : Option Str → Option Str
trimmed none = none
trimmed (some s) = if is_empty (trim s) then none else some (trim s)

unfoldable pub validate_report_outcome : Option Str → Option Str → Result Verdict
validate_report_outcome outcome route = do
  given ← ok_or (trimmed outcome) (codes "report requires outcome=ready|blocked")
  word ← strict_single_line (codes "outcome") given 16
  verdict_of word route

-- What a report writes, where an iteration is active.
abbrev pub report_active :
    OperatorSurface
    → Option ActiveIteration
    → Str
    → Str
    → Verdict
    → Str
    → Option Str
    → Result OperatorSurface
report_active s none headline body verdict now revision =
    err (codes "report requires an active iteration")
report_active s (some it) headline body verdict now revision = ok (record s {
  headline = some headline;
  body = some body;
  outcome = some verdict.outcome;
  route = verdict.route;
  updated_at = some now;
  basis_revision = revision;
  active_iteration = some (record it { reported_at = some now });
})

unfoldable pub report_surface :
    OperatorSurface → Str → Str → Verdict → Str → Option Str → Result OperatorSurface
report_surface s headline body verdict now revision =
    report_active s s.active_iteration headline body verdict now revision
