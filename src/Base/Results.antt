-- ===== src/Base/Results.antt =====
-- `Result<T, BackendError>`: an error carries its message.
use mathlib.Core.Path.{◌≡◌, refl}
use mathlib.Core.Logic.{◌⊎◌, inl, inr}
use mathlib.Core.Bool.{Bool, true, false}
use mathlib.Core.Option.{Option, none, some}
use systemd_ops.Base.Tests.{if◌then◌else◌}
use systemd_ops.Base.Text.{Str}

pub data Result {ℓ} (A : Type ℓ) : Type ℓ where
  ok : A → Result A
  err : Str → Result A

infixl 5 ◌>>=◌ ◌>>◌
abbrev pub ◌>>=◌ {ℓ κ} : {T : Type ℓ} {U : Type κ} → Result T → (T → Result U) → Result U
ok value >>= next = next value
err message >>= next = err message

abbrev pub ◌>>◌ {ℓ} : {U : Type ℓ} → Result (Unit {0}) → Result U → Result U
check >> next = check >>= λ _. next

-- `if !test { return Err(e) }`.
abbrev pub ensure : Bool → Str → Result (Unit {0})
ensure true e = ok tt
ensure false e = err e

-- `ok_or_else`.
abbrev pub ok_or {ℓ} : {A : Type ℓ} → Option A → Str → Result A
ok_or none e = err e
ok_or (some a) e = ok a

pub bind-eq-ok {ℓ κ} :
    {T : Type ℓ} {U : Type κ} (r : Result T) (next : T → Result U) {out : U}
    → (r >>= next) ≡ ok out
    → (value : T) × (r ≡ ok value) × (next value ≡ ok out)
bind-eq-ok (ok value) next given = (value, refl, given)
bind-eq-ok (err message) next given = cc

pub Result-cases {ℓ} :
    {A : Type ℓ} (r : Result A) → ((a : A) × (r ≡ ok a)) ⊎ ((e : Str) × (r ≡ err e))
Result-cases (ok a) = inl (a, refl)
Result-cases (err e) = inr (e, refl)

-- A branch that gave a value, and what the test was.
pub if-eq-ok {ℓ} :
    {A : Type ℓ} (b : Bool) (x y : Result A) {out : A}
    → (if b then x else y) ≡ ok out
    → ((b ≡ true) × (x ≡ ok out)) ⊎ ((b ≡ false) × (y ≡ ok out))
if-eq-ok true x y h = inl (refl, h)
if-eq-ok false x y h = inr (refl, h)

pub ensure-eq-ok : (b : Bool) (e : Str) {u : Unit {0}} → ensure b e ≡ ok u → b ≡ true
ensure-eq-ok true e h = refl
ensure-eq-ok false e h = cc

pub ok-injective {ℓ} : {A : Type ℓ} {a b : A} → ok a ≡ ok b → a ≡ b
ok-injective h = cc
