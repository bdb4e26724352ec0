-- ===== src/Base/Steps.antt =====
-- Fallible code that changes a state: what it did stays done when it fails.
use mathlib.Core.Path.{◌≡◌, refl}
use systemd_ops.Base.Results.{Result, ok, err}

abbrev pub StepOf {ℓ} : Type 0 → Type ℓ → Type ℓ
StepOf S A = S → Result A × S

abbrev pub proceed {ℓ κ} :
    {S : Type 0} {A : Type ℓ} {B : Type κ} → Result A × S → (A → StepOf S B) → Result B × S
proceed (ok a, s) f = f a s
proceed (err e, s) f = (err e, s)

infixl 5 ◌>>=◌ ◌>>◌
abbrev pub ◌>>=◌ {ℓ κ} :
    {S : Type 0} {A : Type ℓ} {B : Type κ} → StepOf S A → (A → StepOf S B) → StepOf S B
(m >>= f) s = proceed (m s) f

abbrev pub ◌>>◌ {ℓ} : {S : Type 0} {B : Type ℓ} → StepOf S (Unit {0}) → StepOf S B → StepOf S B
(m >> k) s = proceed (m s) (λ _. k)

-- Code that leaves the state alone.
abbrev pub give {ℓ} : {S : Type 0} {A : Type ℓ} → Result A → StepOf S A
give r s = (r, s)

pub proceed-eq-ok {ℓ κ} :
    {S : Type 0} {A : Type ℓ} {B : Type κ} (r : Result A × S) (f : A → StepOf S B) {b : B} {s : S}
    → proceed r f ≡ (ok b, s)
    → (a : A) × (mid : S) × (r ≡ (ok a, mid)) × (f a mid ≡ (ok b, s))
proceed-eq-ok (ok a, mid) f h = (a, mid, refl, h)
proceed-eq-ok (err e, mid) f h = cc
