-- ===== src/Operator/Invariant.antt =====
-- Every operation keeps a surface in the form in which it can be written and read back.
use systemd_ops.Base.{
  ℕ, zero, suc, ◌-◌, ◌≤◌, ◌≡◌, refl, subst, inl, inr, Bool, true, false, ◌&&◌, Option, none, some,
  List, [], ◌∷◌, ◌++◌, arith, ltb, Bool-cases, length, take, drop, All, length-take, length-drop,
  All-append, Str, str_eq, ok, ok-injective,
}
use systemd_ops.Json.{ℤ}
use systemd_ops.Operator.Surface.{
  OperatorActivity, ActiveIteration, OperatorIteration, OperatorSurface, empty_surface,
}
use systemd_ops.Operator.RoundTrip.{
  IsText, IsTextOption, IsExitCode, IsActivity, IsIteration, IsActiveOption, IsSurface,
}
use systemd_ops.Operator.Iterations.{
  push_iteration, abandoned_iteration, abandon, start_iteration, when, finished_iteration,
  finish_active, finish_iteration, max_activity, push_activity, Verdict, report_active, is_zero,
  is_some,
}

pub empty_surface-IsSurface : IsSurface empty_surface
empty_surface-IsSurface = record {
  version_one = refl;
  about_text = tt;
  headline_text = tt;
  body_text = tt;
  updated_text = tt;
  basis_text = tt;
  outcome_text = tt;
  route_text = tt;
  activity_entries = tt;
  active_entry = tt;
  iteration_entries = tt;
  iterations_few = omega arith;
}

All-take {ℓ κ} : {A : Type ℓ} (P : A → Type κ) (n : ℕ) (l : List A) → All P l → All P (take n l)
All-take P zero l h = tt
All-take P (suc n) [] h = tt
All-take P (suc n) (x ∷ l) h = (h.0, All-take P n l h.1)

All-drop {ℓ κ} : {A : Type ℓ} (P : A → Type κ) (n : ℕ) (l : List A) → All P l → All P (drop n l)
All-drop P zero l h = h
All-drop P (suc n) [] h = tt
All-drop P (suc n) (x ∷ l) h = All-drop P n l h.1

push_iteration-IsSurface :
    (s : OperatorSurface) (it : OperatorIteration)
    → IsSurface s
    → IsIteration it
    → IsSurface (push_iteration s it)
unfolding push_iteration
push_iteration-IsSurface s it h g = record {
  version_one = h.version_one;
  about_text = h.about_text;
  headline_text = h.headline_text;
  body_text = h.body_text;
  updated_text = h.updated_text;
  basis_text = h.basis_text;
  outcome_text = h.outcome_text;
  route_text = h.route_text;
  activity_entries = h.activity_entries;
  active_entry = h.active_entry;
  iteration_entries = (g, All-take IsIteration 19 s.iterations h.iteration_entries);
  iterations_few = omega (arith, length-take {A = OperatorIteration} 19 s.iterations);
}

set_active-IsSurface :
    (s : OperatorSurface) (o : Option ActiveIteration)
    → IsSurface s
    → IsActiveOption o
    → IsSurface (record s { active_iteration = o })
set_active-IsSurface s o h g = ground (arith, g)

abandon-IsSurface :
    (s : OperatorSurface) (o : Option ActiveIteration)
    → IsSurface s
    → IsActiveOption o
    → IsSurface (abandon s o)
unfolding abandon
abandon-IsSurface s none h g = h
abandon-IsSurface s (some it) h g = push_iteration-IsSurface s (abandoned_iteration it) h (record {
  id_text = g.id_text;
  started_text = g.started_text;
  finished_text = tt;
  code_range = tt;
  headline_text = tt;
  summary_text = tt;
  outcome_text = tt;
  route_text = tt;
})

pub start_iteration-IsSurface :
    (s : OperatorSurface) (id started_at : Str)
    → IsSurface s
    → IsText id
    → IsText started_at
    → IsSurface (start_iteration s id started_at)
unfolding start_iteration
start_iteration-IsSurface s id started_at h i t =
    set_active-IsSurface (abandon s s.active_iteration) _
      (abandon-IsSurface s s.active_iteration h h.active_entry)
      (record { id_text = i; started_text = t; observed_text = h.updated_text; reported_text = tt })

when-IsTextOption : (b : Bool) (o : Option Str) → IsTextOption o → IsTextOption (when b o)
when-IsTextOption true o h = h
when-IsTextOption false o h = tt

finish_active-IsSurface :
    (s : OperatorSurface) (o : Option ActiveIteration) (id : Str) (code : ℤ) (at : Str)
    → IsSurface s
    → IsActiveOption o
    → IsExitCode (some code)
    → IsText at
    → IsSurface (finish_active s o id code at).1
unfolding finish_active
finish_active-IsSurface s none id code at h g c t = h
finish_active-IsSurface s (some it) id code at h g c t = elim (Bool-cases (str_eq it.id id)) [
  | inr n ↦ rw n h
  | inl y ↦
      let b = is_zero code && is_some it.reported_at in
      rw y (
        push_iteration-IsSurface (record s { active_iteration = none })
          (finished_iteration s it code at b) (set_active-IsSurface s none h tt)
          (record {
            id_text = g.id_text;
            started_text = g.started_text;
            finished_text = t;
            code_range = c;
            headline_text = when-IsTextOption b s.headline h.headline_text;
            summary_text = when-IsTextOption b s.body h.body_text;
            outcome_text = when-IsTextOption b s.outcome h.outcome_text;
            route_text = when-IsTextOption b s.route h.route_text;
          }))
]

pub finish_iteration-IsSurface :
    (s : OperatorSurface) (id : Str) (code : ℤ) (at : Str)
    → IsSurface s
    → IsExitCode (some code)
    → IsText at
    → IsSurface (finish_iteration s id code at).1
unfolding finish_iteration
finish_iteration-IsSurface s id code at h c t =
    finish_active-IsSurface s s.active_iteration id code at h h.active_entry c t

set_activity-IsSurface :
    (s : OperatorSurface) (l : List OperatorActivity)
    → IsSurface s
    → All IsActivity l
    → IsSurface (record s { activity = l })
set_activity-IsSurface s l h g = ground (arith, g)

pub push_activity-IsSurface :
    (s : OperatorSurface) (entry : OperatorActivity)
    → IsSurface s
    → IsActivity entry
    → IsSurface (push_activity s entry)
unfolding push_activity
push_activity-IsSurface s entry h g =
    let grown = s.activity ++ entry ∷ [] in
    let good = All-append IsActivity s.activity (entry ∷ []) h.activity_entries (g, tt) in
    elim (Bool-cases (ltb max_activity (length grown))) [
      | inl y ↦ rw y (
          set_activity-IsSurface s _ h
            (All-drop IsActivity (length grown - max_activity) grown good))
      | inr n ↦ rw n (set_activity-IsSurface s grown h good)
    ]

-- No more than 100 entries are kept.
pub push_activity-length :
    (s : OperatorSurface) (entry : OperatorActivity)
    → length (push_activity s entry).activity ≤ max_activity
unfolding push_activity
push_activity-length s entry = ground (
  arith,
  length-drop {A = OperatorActivity} (length (s.activity ++ entry ∷ []) - max_activity)
      (s.activity ++ entry ∷ []),
)

pub report_active-IsSurface :
    (s : OperatorSurface) (o : Option ActiveIteration) (headline body : Str) (v : Verdict)
    (now : Str) (revision : Option Str) {out : OperatorSurface}
    → IsSurface s
    → IsActiveOption o
    → IsText headline
    → IsText body
    → IsText v.outcome
    → IsTextOption v.route
    → IsText now
    → IsTextOption revision
    → report_active s o headline body v now revision ≡ ok out
    → IsSurface out
report_active-IsSurface s none headline body v now revision h g a b c d e f r = cc
report_active-IsSurface s (some it) headline body v now revision h g a b c d e f r =
    subst IsSurface (ok-injective r) (record {
      version_one = h.version_one;
      about_text = h.about_text;
      headline_text = a;
      body_text = b;
      updated_text = e;
      basis_text = f;
      outcome_text = c;
      route_text = d;
      activity_entries = h.activity_entries;
      active_entry = record {
        id_text = g.id_text;
        started_text = g.started_text;
        observed_text = g.observed_text;
        reported_text = e;
      };
      iteration_entries = h.iteration_entries;
      iterations_few = h.iterations_few;
    })
