-- ===== src/Systemd/Glob/Complete.antt =====
-- The loop of `glob_match` finds every match within its fuel: to go back to the last star alone
-- loses none.
use systemd_ops.Base.{
  ℕ, zero, suc, ◌+◌, ◌*◌, ◌≤◌, ◌<◌, ◌≡◌, refl, subst, ◌≢◌, ◌↔◌, inl, inr, Bool, true, false, ◌||◌,
  Option, none, some, [], ◌∷◌, arith, ◌==◌, Bool-cases, length, all, Str, Bytes, as_bytes,
}
use systemd_ops.Systemd.Glob.{tail, glob_loop, glob_fuel, glob_match}
use systemd_ops.Systemd.Glob.Spec.{
  Suffix, here, next, Matches, done, star, one, Suffix-trans, star-Suffix,
}
use systemd_ops.Systemd.Glob.Sound.{Found, glob_bytes-Matches}

-- From the saved star's position to the present one the loop passed single bytes alone.
data Along (q r : Bytes) : Bytes → Bytes → Type 0 where
  start : Along q r q r
  step : {x c : ℕ} {p t : Bytes} → Along q r (x ∷ p) (c ∷ t) → x ≢ b'*' → Along q r p t

Along-length : {q r p t : Bytes} → Along q r p t → length t ≤ length r
Along-length start = omega arith
Along-length (step a n) = omega (arith, Along-length a)

Suffix-step : {c : ℕ} {s t : Bytes} → Suffix (c ∷ s) t → Suffix s t
Suffix-step here = next here
Suffix-step (next h) = next (Suffix-step h)

Suffix-of_cons : {c d : ℕ} {s t : Bytes} → Suffix (d ∷ s) (c ∷ t) → Suffix s t
Suffix-of_cons here = here
Suffix-of_cons (next h) = Suffix-step h

record Carried (p t : Bytes) : Type 0 where
  rest : Bytes
  suffix : Suffix rest t
  matched : Matches p rest

Carried-step : {x c : ℕ} {p t : Bytes} → x ≢ b'*' → Carried (x ∷ p) (c ∷ t) → Carried p t
Carried-step {x} {c} {p} {t} n k = go k.suffix k.matched
  where
    go : {s : Bytes} → Suffix s (c ∷ t) → Matches (x ∷ p) s → Carried p t
    go h (star e _ _) = absurd (n e)
    go h (one {t = s'} _ _ m) = record { rest = s'; suffix = Suffix-of_cons h; matched = m }

-- A match from a later restart gives one from here, at a later byte.
carry : {q r p t s : Bytes} → Along q r p t → Suffix s r → Matches q s → Carried p t
carry start h m = record { rest = _; suffix = h; matched = m }
carry (step a n) h m = Carried-step n (carry a h m)

star_inv : {q t : Bytes} → Matches (b'*' ∷ q) t → (s : Bytes) × Suffix s t × Matches q s
star_inv (star {s = s} _ h m) = (s, h, m)
star_inv (one n _ _) = absurd (n refl)

Suffix-tail : (t : Bytes) → Suffix (tail t) t
Suffix-tail [] = here
Suffix-tail (c ∷ t) = next here

carry_star : {q r p t : Bytes} → Along q r p t → Matches (b'*' ∷ q) (tail r) → Carried p t
carry_star {r = r} a m = let (s, h, m') = star_inv m in carry a (Suffix-trans h (Suffix-tail r)) m'

all_stars : {p : Bytes} → Matches p [] → all (λ c. c == b'*') p ≡ true
all_stars done = refl
all_stars (star e here m) = ground (arith, all_stars m)

all_stars-Carried : {p : Bytes} → Carried p [] → all (λ c. c == b'*') p ≡ true
all_stars-Carried {p} k = go k.suffix k.matched
  where
    go : {s : Bytes} → Suffix s [] → Matches p s → all (λ c. c == b'*') p ≡ true
    go here m = all_stars m

-- A match of the star and what follows it is one here, or one from the next restart.
retry : {q u : Bytes} → Matches (b'*' ∷ q) u → Found q u (some (q, u))
retry {q} {u} m = let (s, h, m') = star_inv m in go h m'
  where
    go : {s w : Bytes} → Suffix s w → Matches q s → Found q w (some (q, w))
    go here k = inl k
    go (next h) k = inr (star refl h k)

-- The state of the loop: where the star stands, and how many steps are left at most.
abbrev State : ℕ → Bytes → Bytes → Option (Bytes × Bytes) → ℕ → Type 0
State cap p t none fuel = (length p ≤ cap) × (length t * suc cap + length p < fuel)
State cap p t (some (q, r)) fuel =
    Along q r p t × (length p ≤ cap) × (length q ≤ cap) × (length r * suc cap + length p < fuel)

State-saved :
    (cap x c fuel : ℕ) (p t : Bytes) (st : Option (Bytes × Bytes))
    → State cap (x ∷ p) (c ∷ t) st (suc fuel)
    → State cap p (c ∷ t) (some (p, c ∷ t)) fuel
State-saved cap x c fuel p t none (h, m) = (start, omega arith, omega arith, omega arith)
State-saved cap x c fuel p t (some (q, r)) (a, h, k, m) =
    let le : length (c ∷ t) * suc cap ≤ length r * suc cap = grind (arith, Along-length a) in
    (start, omega arith, omega arith, omega arith)

State-advanced :
    (cap x c fuel : ℕ) (p t : Bytes) (st : Option (Bytes × Bytes))
    → (x == b'*') ≡ false
    → State cap (x ∷ p) (c ∷ t) st (suc fuel)
    → State cap p t st fuel
State-advanced cap x c fuel p t none n (h, m) = (omega arith, omega arith)
State-advanced cap x c fuel p t (some (q, r)) n (a, h, k, m) =
    (step a (ground arith), omega arith, k, omega arith)

State-back :
    (cap c fuel : ℕ) (p t q r : Bytes)
    → State cap p (c ∷ t) (some (q, r)) (suc fuel)
    → State cap q (tail r) (some (q, tail r)) fuel
State-back cap c fuel p t q [] (a, h, k, m) = absurd (omega (arith, Along-length a))
State-back cap c fuel p t q (d ∷ r) (a, h, k, m) = (start, k, k, omega arith)

Carried-Found :
    (cap fuel : ℕ) (p t : Bytes) (st : Option (Bytes × Bytes))
    → State cap p t st fuel
    → Found p t st
    → Carried p t
Carried-Found cap fuel p t none s m = record { rest = t; suffix = here; matched = m }
Carried-Found cap fuel p t (some (q, r)) s (inl m) = record { rest = t; suffix = here; matched = m }
Carried-Found cap fuel p t (some (q, r)) s (inr m) = carry_star s.0 m

Carried-star : {x : ℕ} {p t : Bytes} → x ≡ b'*' → Carried (x ∷ p) t → Matches (b'*' ∷ p) t
Carried-star {p = p} {t = t} e k =
    subst (λ y. Matches (y ∷ p) t) e (star-Suffix e k.suffix k.matched)

Found-advanced :
    (x c : ℕ) (p t : Bytes) (st : Option (Bytes × Bytes))
    → (x == b'*') ≡ false
    → Found (x ∷ p) (c ∷ t) st
    → (x == b'?' || x == c) ≡ true
    → Found p t st
Found-advanced x c p t none n (star e _ _) k = absurd (ground arith)
Found-advanced x c p t none n (one _ _ m) k = m
Found-advanced x c p t (some (q, r)) n (inl (star e _ _)) k = absurd (ground arith)
Found-advanced x c p t (some (q, r)) n (inl (one _ _ m)) k = inl m
Found-advanced x c p t (some (q, r)) n (inr m) k = inr m

mismatch :
    (x c : ℕ) (p t : Bytes)
    → (x == b'*') ≡ false
    → (x == b'?' || x == c) ≡ false
    → ¬ Matches (x ∷ p) (c ∷ t)
mismatch x c p t n k (star e _ _) = ground arith
mismatch x c p t n k (one _ e _) = ground arith

-- The answer that the loop gives when it goes back.
abbrev go_back : ℕ → Option (Bytes × Bytes) → Bool
go_back fuel st = elim st [
  | none ↦ false
  | some (q, r) ↦ glob_loop fuel q (tail r) (some (q, tail r))
]

abbrev Finds : ℕ → Type 0
Finds fuel =
    (cap : ℕ) (p t : Bytes) (st : Option (Bytes × Bytes))
    → State cap p t st fuel
    → Found p t st
    → glob_loop fuel p t st ≡ true

Finds-back :
    (fuel cap c : ℕ) (p t : Bytes) (st : Option (Bytes × Bytes))
    → Finds fuel
    → State cap p (c ∷ t) st (suc fuel)
    → ¬ Matches p (c ∷ t)
    → Found p (c ∷ t) st
    → go_back fuel st ≡ true
Finds-back fuel cap c p t none ih s n m = absurd (n m)
Finds-back fuel cap c p t (some (q, r)) ih s n (inl m) = absurd (n m)
Finds-back fuel cap c p t (some (q, r)) ih s n (inr m) =
    ih cap q (tail r) (some (q, tail r)) (State-back cap c fuel p t q r s) (retry m)

glob_loop_complete : (fuel : ℕ) → Finds fuel
unfolding glob_loop
glob_loop_complete zero cap p t none (h, m) f = absurd (omega arith)
glob_loop_complete zero cap p t (some (q, r)) (a, h, k, m) f = absurd (omega arith)
glob_loop_complete (suc fuel) cap p [] st s f =
    all_stars-Carried (Carried-Found cap (suc fuel) p [] st s f)
glob_loop_complete (suc fuel) cap [] (c ∷ t) st s f =
    Finds-back fuel cap c [] t st (glob_loop_complete fuel) s nil_cons f
  where
    nil_cons : ¬ Matches [] (c ∷ t)
    nil_cons m = elim m [ ]
glob_loop_complete (suc fuel) cap (x ∷ p) (c ∷ t) st s f = elim (Bool-cases (x == b'*')) [
  | inl e ↦
      let m = Carried-star (ground arith) (Carried-Found cap (suc fuel) (x ∷ p) (c ∷ t) st s f) in
      rw e (
        glob_loop_complete fuel cap p (c ∷ t) (some (p, c ∷ t)) (State-saved cap x c fuel p t st s)
          (retry m))
  | inr n ↦ elim (Bool-cases (x == b'?' || x == c)) [
    | inl k ↦
        rw (n, k)
          (glob_loop_complete fuel cap p t st (State-advanced cap x c fuel p t st n s)
            (Found-advanced x c p t st n f k))
    | inr k ↦
        rw (n, k)
          (Finds-back fuel cap c (x ∷ p) t st (glob_loop_complete fuel) s (mismatch x c p t n k) f)
  ]
]

glob_fuel_enough : (p t : Bytes) → length t * suc (length p) + length p < glob_fuel p t
glob_fuel_enough p t = grind arith

-- `glob_match` answers true exactly for the names that the glob stands for, whatever stars the
-- pattern holds; its loop ends within its fuel.
pub glob_match-Matches :
    (pattern name : Str)
    → (glob_match pattern name ≡ true) ↔ Matches (as_bytes pattern) (as_bytes name)
unfolding glob_match
glob_match-Matches pattern name =
    let p = as_bytes pattern in
    let t = as_bytes name in
    (
      glob_bytes-Matches p t,
      λ m.
          glob_loop_complete (glob_fuel p t) (length p) p t none (omega arith, glob_fuel_enough p t)
            m,
    )
