-- ===== src/Operator/Kept.antt =====
-- What every surface of src/operator.rs keeps to, whatever is done to it.
use systemd_ops.Base.{
  ◌≤◌, ◌≡◌, refl, inl, inr, Option, none, some, List, [], ◌∷◌, arith, Bool-cases, length, All, Str,
  str_eq, Result, ok, err,
}
use systemd_ops.Json.{ℤ}
use systemd_ops.Operator.Surface.{OperatorSurface, empty_surface}
use systemd_ops.Operator.Iterations.{
  Verdict, report_active, report_surface, start_iteration, finish_iteration, finish_active,
  max_activity, abandon, push_iteration,
}
use systemd_ops.Operator.RoundTrip.{IsText, IsTextOption, IsExitCode, IsActivity, IsSurface}
use systemd_ops.Operator.Invariant.{
  empty_surface-IsSurface, start_iteration-IsSurface, finish_iteration-IsSurface,
  push_activity-IsSurface, report_active-IsSurface, push_activity-length,
}
use systemd_ops.Operator.Session.{
  Event, start, report, note, finish, ok_or_same, surface_step, surface_run,
}

-- What the callers pass: texts that are not empty, and exit codes of 32 bits.
abbrev pub IsEvent : Event → Type 0
IsEvent (start id started_at) = IsText id × IsText started_at
IsEvent (report headline body verdict now revision) =
    IsText headline
    × IsText body
    × IsText verdict.outcome
    × IsTextOption verdict.route
    × IsText now
    × IsTextOption revision
IsEvent (note entry) = IsActivity entry
IsEvent (finish id exit_code finished_at) = IsExitCode (some exit_code) × IsText finished_at

abbrev pub IsKept : OperatorSurface → Type 0
IsKept s = IsSurface s × length s.activity ≤ max_activity

abandon-activity : (s : OperatorSurface) (o : Option _) → (abandon s o).activity ≡ s.activity
unfolding abandon push_iteration
abandon-activity s none = refl
abandon-activity s (some it) = refl

finish-activity :
    (s : OperatorSurface) (o : Option _) (id : Str) (code : ℤ) (at : Str)
    → (finish_active s o id code at).1.activity ≡ s.activity
unfolding finish_active push_iteration
finish-activity s none id code at = refl
finish-activity s (some it) id code at = elim (Bool-cases (str_eq it.id id)) [
  | inl y ↦ rw y refl
  | inr n ↦ rw n refl
]

report-activity :
    (s : OperatorSurface) (o : Option _) (headline body : Str) (v : Verdict) (now : Str)
    (revision : Option Str)
    → (ok_or_same s (report_active s o headline body v now revision)).activity ≡ s.activity
report-activity s none headline body v now revision = refl
report-activity s (some it) headline body v now revision = refl

ok_or_same-IsSurface :
    (s : OperatorSurface) (r : Result OperatorSurface)
    → IsSurface s
    → ((out : OperatorSurface) → r ≡ ok out → IsSurface out)
    → IsSurface (ok_or_same s r)
ok_or_same-IsSurface s (ok out) h g = g out refl
ok_or_same-IsSurface s (err e) h g = h

step-IsKept : (s : OperatorSurface) (e : Event) → IsKept s → IsEvent e → IsKept (surface_step s e)
unfolding start_iteration report_surface finish_iteration
step-IsKept s (start id started_at) (h, n) g = (
  start_iteration-IsSurface s id started_at h g.0 g.1,
  rw (abandon-activity s s.active_iteration) n,
)
step-IsKept s (report headline body v now revision) (h, n) g = (
  ok_or_same-IsSurface s (report_surface s headline body v now revision) h (λ out r.
      report_active-IsSurface s s.active_iteration headline body v now revision h h.active_entry g.0
        g.1 g.2 g.3 g.4 g.5 r),
  rw (report-activity s s.active_iteration headline body v now revision) n,
)
step-IsKept s (note entry) (h, n) g =
    (push_activity-IsSurface s entry h g, push_activity-length s entry)
step-IsKept s (finish id code at) (h, n) g = (
  finish_iteration-IsSurface s id code at h g.0 g.1,
  rw (finish-activity s s.active_iteration id code at) n,
)

run-IsKept :
    (s : OperatorSurface) (es : List Event) → IsKept s → All IsEvent es → IsKept (surface_run s es)
run-IsKept s [] h g = h
run-IsKept s (e ∷ es) h g = run-IsKept (surface_step s e) es (step-IsKept s e h g.0) g.1

-- After any sequence of starts, reports, notes and finishes whose texts are not empty and whose exit
-- codes have 32 bits, a surface that began empty has version 1, no empty text, at most 20 iterations
-- and at most 100 entries of activity.
pub surface_run-IsKept : (es : List Event) → All IsEvent es → IsKept (surface_run empty_surface es)
surface_run-IsKept es g = run-IsKept empty_surface es (empty_surface-IsSurface, omega arith) g
