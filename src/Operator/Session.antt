-- ===== src/Operator/Session.antt =====
-- The iterations of an operation as an abstract session: one iteration at most is running, and all
-- that ended are remembered. The surface of src/operator.rs implements it with the last 20 of them.
use systemd_ops.Base.{
  ℕ, zero, suc, ◌≤◌, ◌≡◌, refl, ap, ◌∙◌, subst, inl, inr, Bool, true, false, ◌&&◌, Option, none,
  some, List, [], ◌∷◌, map, arith, if◌then◌else◌, Bool-cases, take, Str, str_eq, Result, ok, err,
}
use systemd_ops.Json.{ℤ}
use systemd_ops.Operator.Surface.{
  OperatorActivity, ActiveIteration, OperatorIteration, OperatorSurface, empty_surface,
}
use systemd_ops.Operator.Parse.{max_iterations}
use systemd_ops.Operator.Iterations.{
  push_iteration, abandoned_iteration, abandon, start_iteration, finished_iteration, finish_active,
  finish_iteration, push_activity, Verdict, report_active, report_surface, is_zero, is_some,
}

-- How an iteration ended: abandoned for another one, or finished, with or without a report and a
-- success.
pub data Ending : Type 0 where
  abandoned : Ending
  finished : Bool → Ending

-- The running iteration with the flag of its report, and the ended ones, the last one first.
pub record Session : Type 0 where
  pub running : Option (Str × Bool)
  pub history : List (Str × Ending)

-- What is done to an operation.
pub data Event : Type 0 where
  start : (id started_at : Str) → Event
  report : (headline body : Str) (verdict : Verdict) (now : Str) (revision : Option Str) → Event
  note : OperatorActivity → Event
  finish : (id : Str) (exit_code : ℤ) (finished_at : Str) → Event

abbrev pub leave : Option (Str × Bool) → List (Str × Ending) → List (Str × Ending)
leave none history = history
leave (some (id, reported)) history = (id, abandoned) ∷ history

abbrev pub mark_reported : Option (Str × Bool) → Option (Str × Bool)
mark_reported none = none
mark_reported (some (id, reported)) = some (id, true)

abbrev pub end_running : Session → Option (Str × Bool) → Str → Bool → Session
end_running t none id success = t
end_running t (some (running, reported)) id success =
    if str_eq running id
    then record { running = none; history = (running, finished (success && reported)) ∷ t.history }
    else t

-- The session that is meant.
abbrev pub session_step : Session → Event → Session
session_step t (start id started_at) = record {
  running = some (id, false);
  history = leave t.running t.history;
}
session_step t (report headline body verdict now revision) = record t {
  running = mark_reported t.running;
}
session_step t (note entry) = t
session_step t (finish id exit_code finished_at) = end_running t t.running id (is_zero exit_code)

abbrev pub ok_or_same : OperatorSurface → Result OperatorSurface → OperatorSurface
ok_or_same s (ok s') = s'
ok_or_same s (err e) = s

-- The surface after what the code does.
abbrev pub surface_step : OperatorSurface → Event → OperatorSurface
surface_step s (start id started_at) = start_iteration s id started_at
surface_step s (report headline body verdict now revision) =
    ok_or_same s (report_surface s headline body verdict now revision)
surface_step s (note entry) = push_activity s entry
surface_step s (finish id exit_code finished_at) = (finish_iteration s id exit_code finished_at).1

abbrev pub surface_run : OperatorSurface → List Event → OperatorSurface
surface_run s [] = s
surface_run s (e ∷ es) = surface_run (surface_step s e) es

abbrev pub session_run : Session → List Event → Session
session_run t [] = t
session_run t (e ∷ es) = session_run (session_step t e) es

abbrev pub idle : Session
idle = record { running = none; history = [] }

abbrev pub running_of : Option ActiveIteration → Option (Str × Bool)
running_of none = none
running_of (some it) = some (it.id, is_some it.reported_at)

abbrev pub ending_of : Option Str → Bool → Ending
ending_of none reconsolidated = abandoned
ending_of (some at) reconsolidated = finished reconsolidated

abbrev pub ended_of : OperatorIteration → Str × Ending
ended_of it = (it.id, ending_of it.finished_at it.reconsolidated)

-- A surface stands for a session: the same iteration runs, and the last 20 ended ones are kept.
pub record StandsFor (s : OperatorSurface) (t : Session) : Type 0 where
  pub same_running : running_of s.active_iteration ≡ t.running
  pub last_ended : map ended_of s.iterations ≡ take max_iterations t.history

take-take {ℓ} : {A : Type ℓ} (m n : ℕ) (l : List A) → m ≤ n → take m (take n l) ≡ take m l
take-take zero n l h = refl
take-take (suc m) zero l h = absurd (omega arith)
take-take (suc m) (suc n) [] h = refl
take-take (suc m) (suc n) (x ∷ l) h = ap (◌∷◌ x) (take-take m n l (omega arith))

map-take {ℓ κ} :
    {A : Type ℓ} {B : Type κ} (f : A → B) (n : ℕ) (l : List A) → map f (take n l) ≡ take n (map f l)
map-take f zero l = refl
map-take f (suc n) [] = refl
map-take f (suc n) (x ∷ l) = ap (◌∷◌ (f x)) (map-take f n l)

-- An ended iteration that is pushed is remembered, and the oldest forgotten.
push_iteration-last :
    (s : OperatorSurface) (it : OperatorIteration) (history : List (Str × Ending))
    → map ended_of s.iterations ≡ take max_iterations history
    → map ended_of (push_iteration s it).iterations ≡ take max_iterations (ended_of it ∷ history)
unfolding push_iteration
push_iteration-last s it history h = ap (◌∷◌ (ended_of it)) (
    map-take ended_of 19 s.iterations
    ∙ ap (take 19) h
    ∙ take-take 19 max_iterations history (omega arith))

start_last :
    (s : OperatorSurface) (t : Session) (o : Option ActiveIteration)
    → map ended_of s.iterations ≡ take max_iterations t.history
    → map ended_of (abandon s o).iterations ≡ take max_iterations (leave (running_of o) t.history)
unfolding abandon
start_last s t none h = h
start_last s t (some it) h = push_iteration-last s (abandoned_iteration it) t.history h

finish-StandsFor :
    (s : OperatorSurface) (t : Session) (o : Option ActiveIteration) (id : Str) (code : ℤ)
    (at : Str)
    → StandsFor s t
    → s.active_iteration ≡ o
    → StandsFor (finish_active s o id code at).1 (end_running t (running_of o) id (is_zero code))
unfolding finish_active
finish-StandsFor s t none id code at h e = h
finish-StandsFor s t (some it) id code at h e = elim (Bool-cases (str_eq it.id id)) [
  | inr n ↦ rw n h
  | inl y ↦ rw y (record {
    same_running = refl;
    last_ended =
        push_iteration-last (record s { active_iteration = none })
          (finished_iteration s it code at (is_zero code && is_some it.reported_at)) t.history
          h.last_ended;
  })
]

report-StandsFor :
    (s : OperatorSurface) (t : Session) (o : Option ActiveIteration) (headline body : Str)
    (v : Verdict) (now : Str) (revision : Option Str)
    → StandsFor s t
    → s.active_iteration ≡ o
    → StandsFor
        (ok_or_same s (report_active s o headline body v now revision))
        (record t { running = mark_reported (running_of o) })
report-StandsFor s t none headline body v now revision h e = record {
  same_running = ap running_of e;
  last_ended = h.last_ended;
}
report-StandsFor s t (some it) headline body v now revision h e = record {
  same_running = refl;
  last_ended = h.last_ended;
}

step-StandsFor :
    (s : OperatorSurface) (t : Session) (e : Event)
    → StandsFor s t
    → StandsFor (surface_step s e) (session_step t e)
unfolding start_iteration report_surface finish_iteration push_activity
step-StandsFor s t (start id at) h = record {
  same_running = refl;
  last_ended = rw (← h.same_running) (start_last s t s.active_iteration h.last_ended);
}
step-StandsFor s t (report headline body v now revision) h =
    rw (← h.same_running)
      (report-StandsFor s t s.active_iteration headline body v now revision h refl)
step-StandsFor s t (note entry) h = record {
  same_running = h.same_running;
  last_ended = h.last_ended;
}
step-StandsFor s t (finish id code at) h =
    subst (λ r. StandsFor (finish_iteration s id code at).1 (end_running t r id (is_zero code)))
      h.same_running (finish-StandsFor s t s.active_iteration id code at h refl)

run-StandsFor :
    (s : OperatorSurface) (t : Session) (es : List Event)
    → StandsFor s t
    → StandsFor (surface_run s es) (session_run t es)
run-StandsFor s t [] h = h
run-StandsFor s t (e ∷ es) h =
    run-StandsFor (surface_step s e) (session_step t e) es (step-StandsFor s t e h)

-- After any sequence of starts, reports, notes and finishes, of which some may be refused, a surface
-- that began empty stands for the session that the same sequence means: the same iteration is
-- running, reported or not, and the iterations kept are the last 20 that ended, each with its end.
pub surface_run-StandsFor :
    (es : List Event) → StandsFor (surface_run empty_surface es) (session_run idle es)
surface_run-StandsFor es =
    run-StandsFor empty_surface idle es (record { same_running = refl; last_ended = refl })
