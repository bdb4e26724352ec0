-- ===== src/Operations/Health/Laws.antt =====
-- What the health of an operation says of a timer.
use systemd_ops.Base.{◌≡◌, refl, ◌≢◌, ◌↔◌, ◌⊎◌, inl, inr, true, false, not, ◌||◌, arith, codes}
use systemd_ops.Json.{Value}
use systemd_ops.Operations.Health.{
  Health, healthy, unknown, not_scheduled, KindCase, simple, oneshot, other, kind_case, is_oneshot,
  is_missing, is_wanted_inactive_timer, is_timer_operation, has_future_trigger, is_enabled, never,
  succeeded, word_is, health_in, operation_health, basis_in, health_basis, health_eq,
}

is_oneshot-eq : (k : KindCase) → is_oneshot k ≡ true → k ≡ oneshot
is_oneshot-eq k h = ground arith

-- An enabled timer without a future trigger is never reported healthy.
pub is_wanted_inactive_timer-unhealthy :
    (view : Value) → is_wanted_inactive_timer view ≡ true → operation_health view ≢ healthy
unfolding is_wanted_inactive_timer operation_health health_in
is_wanted_inactive_timer-unhealthy view h healthy_now =
    let k : kind_case view ≡ oneshot = is_oneshot-eq (kind_case view) (ground arith) in
    let now = rw k at healthy_now in ground arith

-- A timer operation of a oneshot kind is healthy exactly if it is not missing, has run, its last
-- result is a success, it has not failed, it is enabled and it has a future trigger.
pub operation_health-timer :
    (view : Value)
    → kind_case view ≡ oneshot
    → is_timer_operation view ≡ true
    → (operation_health view ≡ healthy) ↔ (
        (is_missing view ≡ false)
        × (never view ≡ false)
        × (succeeded view ≡ true)
        × (word_is view (codes "state") (codes "failed") ≡ false)
        × (is_enabled view ≡ true)
        × (has_future_trigger view ≡ true))
unfolding operation_health health_in
operation_health-timer view k t = rw (k, t) (ground arith)

KindCase-cases : (k : KindCase) → (k ≡ simple) ⊎ (k ≡ oneshot) ⊎ (k ≡ other)
KindCase-cases simple = inl refl
KindCase-cases oneshot = inr (inl refl)
KindCase-cases other = inr (inr refl)

health_eq-eq : (a b : Health) → health_eq a b ≡ true → a ≡ b
health_eq-eq a b h = ground arith

-- The basis "not-scheduled" is given only to a timer operation that has run, whose last result is a
-- success, and that is missing, or is not enabled, or has no future trigger.
health_basis-not_scheduled :
    (view : Value)
    → health_basis view ≡ not_scheduled
    → (is_timer_operation view ≡ true)
      × (never view ≡ false)
      × (succeeded view ≡ true)
      × ((is_missing view || (not (is_enabled view) || not (has_future_trigger view))) ≡ true)
unfolding health_basis basis_in operation_health health_in
health_basis-not_scheduled view h = elim (KindCase-cases (kind_case view)) [
  | inl k ↦ let now = rw k at h in ground arith
  | inr (inl k) ↦
      let now = rw k at h in ground (arith, k, health_eq-eq (operation_health view) unknown)
  | inr (inr k) ↦ let now = rw k at h in ground arith
]
