-- ===== src/Automation/Records/Laws.antt =====
-- What a blocker that src/automation.rs accepts keeps to.
use systemd_ops.Base.{
  ℕ, ◌≡◌, refl, subst, ◌⊎◌, inl, inr, Bool, true, false, not, ◌&&◌, ◌||◌, arith, ◌==◌, Bool-cases,
  codes, ok, ensure, bind-eq-ok, ensure-eq-ok, ok-injective,
}
use systemd_ops.Operator.{strict_single_line}
use systemd_ops.Automation.Records.{
  Blocker, blocker_kinds, blocker_routes, known_of, is_some, check_option, route_of, iteration_of,
  validate_opaque, validate_blocker, max_opaque,
}

-- A blocker of a known kind and route, which names its input if it has version 2.
pub record IsBlocker (b : Blocker) : Type 0 where
  pub good_version : (b.version ≡ 1) ⊎ ((b.version ≡ 2) × (is_some b.input_fingerprint ≡ true))
  pub good_kind : known_of blocker_kinds b.kind ≡ true
  pub good_route : known_of blocker_routes b.route ≡ true

version_cases :
    (v : ℕ) (named : Bool)
    → v == 1 || v == 2 ≡ true
    → not (v == 2 && not named) ≡ true
    → (v ≡ 1) ⊎ ((v ≡ 2) × (named ≡ true))
version_cases v true h g = elim (Bool-cases (v == 1)) [
  | inl y ↦ inl (ground arith)
  | inr n ↦ inr (ground arith, refl)
]
version_cases v false h g = elim (Bool-cases (v == 1)) [
  | inl y ↦ inl (ground arith)
  | inr n ↦ absurd (ground arith)
]

-- A blocker that is accepted has a known kind and a known route, and version 1, or version 2 with
-- the fingerprint of an input.
pub validate_blocker-IsBlocker :
    (b : Blocker) {out : Blocker} → validate_blocker b ≡ ok out → IsBlocker out
unfolding validate_blocker
validate_blocker-IsBlocker b h =
    let (u, e, h1) = bind-eq-ok (ensure (b.version == 1 || b.version == 2) _) _ h in
    let (id, e1, h2) = bind-eq-ok (validate_opaque (codes "blocker id") b.id) _ h1 in
    let (input, e2, h3) =
      bind-eq-ok
        (check_option (validate_opaque (codes "blocker input_fingerprint")) b.input_fingerprint) _
        h2 in
    let (u3, e3, h4) = bind-eq-ok (ensure (not (b.version == 2 && not (is_some input))) _) _ h3 in
    let (kind, e4, h5) = bind-eq-ok (strict_single_line (codes "blocker kind") b.kind 64) _ h4 in
    let (u5, e5, h6) = bind-eq-ok (ensure (known_of blocker_kinds kind) _) _ h5 in
    let (route, e6, h7) = bind-eq-ok (route_of b.route) _ h6 in
    let (u7, e7, h8) = bind-eq-ok (ensure (known_of blocker_routes route) _) _ h7 in
    let (moment, e8, h9) =
      bind-eq-ok (strict_single_line (codes "blocker at") b.at max_opaque) _ h8 in
    let (iteration, e9, h10) = bind-eq-ok (iteration_of b.iteration_id) _ h9 in
    let (summary, e10, h11) =
      bind-eq-ok (strict_single_line (codes "blocker summary") b.summary 200) _ h10 in
    subst IsBlocker (ok-injective h11) (record {
      good_version =
          version_cases b.version (is_some input)
            (ensure-eq-ok (b.version == 1 || b.version == 2) _ e)
            (ensure-eq-ok (not (b.version == 2 && not (is_some input))) _ e3);
      good_kind = ensure-eq-ok (known_of blocker_kinds kind) _ e5;
      good_route = ensure-eq-ok (known_of blocker_routes route) _ e7;
    })
