-- ===== src/Operator/Verdicts.antt =====
-- The outcomes of reports that src/operator.rs accepts.
use systemd_ops.Base.{
  ◌≡◌, refl, subst, ◌⊎◌, inl, inr, true, Option, none, some, arith, Str, codes, str_eq, str_eq_iff,
  ok, ok_or, bind-eq-ok, if-eq-ok, ok-injective,
}
use systemd_ops.Operator.{strict_single_line}
use systemd_ops.Operator.Iterations.{
  Verdict, is_route, blocked_route, ready_verdict, blocked_verdict, verdict_of, trimmed,
  validate_report_outcome,
}

-- A verdict is ready without a route, or blocked with one of the three routes.
abbrev pub IsVerdict : Verdict → Type 0
IsVerdict v =
    (v.outcome ≡ codes "ready" × v.route ≡ none)
    ⊎ (v.outcome ≡ codes "blocked" × ((r : Str) × (v.route ≡ some r) × (is_route r ≡ true)))

blocked_route-is_route :
    (route : Option Str) {r : Str} → blocked_route route ≡ ok r → is_route r ≡ true
unfolding blocked_route
blocked_route-is_route none h = cc
blocked_route-is_route (some given) {r} h =
    let (line, e, h1) = bind-eq-ok (strict_single_line (codes "route") given 16) _ h in ground arith

ready_verdict-IsVerdict :
    (outcome : Str) (route : Option Str) {v : Verdict}
    → outcome ≡ codes "ready"
    → ready_verdict outcome route ≡ ok v
    → IsVerdict v
unfolding ready_verdict
ready_verdict-IsVerdict outcome none e h = subst IsVerdict (ok-injective h) (inl (e, refl))
ready_verdict-IsVerdict outcome (some r) e h = cc

blocked_verdict-IsVerdict :
    (outcome : Str) (route : Option Str) {v : Verdict}
    → outcome ≡ codes "blocked"
    → blocked_verdict outcome route ≡ ok v
    → IsVerdict v
unfolding blocked_verdict
blocked_verdict-IsVerdict outcome route e h =
    let (r, found, h1) = bind-eq-ok (blocked_route route) _ h in
    subst IsVerdict (ok-injective h1) (inr (e, (r, refl, blocked_route-is_route route found)))

-- The word "ready" or "blocked" that is accepted, with its route.
verdict_of-IsVerdict :
    (outcome : Str) (route : Option Str) {v : Verdict}
    → verdict_of outcome route ≡ ok v
    → IsVerdict v
unfolding verdict_of
verdict_of-IsVerdict outcome route h = elim (if-eq-ok (str_eq outcome (codes "ready")) _ _ h) [
  | inl (y, h1) ↦
      ready_verdict-IsVerdict outcome route ((str_eq_iff outcome (codes "ready")).0 y) h1
  | inr (n, h1) ↦ elim (if-eq-ok (str_eq outcome (codes "blocked")) _ _ h1) [
    | inl (y, h2) ↦
        blocked_verdict-IsVerdict outcome route ((str_eq_iff outcome (codes "blocked")).0 y) h2
    | inr (n2, h2) ↦ elim (if-eq-ok (str_eq outcome (codes "failed")) _ _ h2) [
      | inl (y, h3) ↦ cc
      | inr (n3, h3) ↦ cc
    ]
  ]
]

-- The outcome and the route of a report that are accepted are "ready" without a route, or "blocked"
-- with one of the routes self, parent and lead.
pub validate_report_outcome-IsVerdict :
    (outcome route : Option Str) {v : Verdict}
    → validate_report_outcome outcome route ≡ ok v
    → IsVerdict v
unfolding validate_report_outcome
validate_report_outcome-IsVerdict outcome route h =
    let (given, e, h1) =
      bind-eq-ok (ok_or (trimmed outcome) (codes "report requires outcome=ready|blocked")) _ h in
    let (word, e1, h2) = bind-eq-ok (strict_single_line (codes "outcome") given 16) _ h1 in
    verdict_of-IsVerdict word route h2
