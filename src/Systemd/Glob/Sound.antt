-- ===== src/Systemd/Glob/Sound.antt =====
-- Whatever the loop of `glob_match` accepts is matched.
use systemd_ops.Base.{
  ℕ, zero, suc, ◌≡◌, refl, sym, subst, ◌⊎◌, inl, inr, true, false, ◌||◌, Option, none, some, [],
  ◌∷◌, arith, ◌==◌, Bool-cases, all, Bytes,
}
use systemd_ops.Systemd.Glob.{tail, glob_loop, glob_fuel, glob_bytes}
use systemd_ops.Systemd.Glob.Spec.{Suffix, here, next, Matches, done, star, one, star-Suffix}

-- What a true answer says at a state of the loop: a match here, or one behind the saved star.
abbrev pub Found : Bytes → Bytes → Option (Bytes × Bytes) → Type 0
Found p t none = Matches p t
Found p t (some (q, r)) = Matches p t ⊎ Matches (b'*' ∷ q) (tail r)

Matches-stars : (p : Bytes) → all (λ c. c == b'*') p ≡ true → Matches p []
Matches-stars [] h = done
Matches-stars (x ∷ p) h = star (ground arith) here (Matches-stars p (ground arith))

Suffix-tail : (t : Bytes) → Suffix (tail t) t
Suffix-tail [] = here
Suffix-tail (c ∷ t) = next here

Found-here : {p t : Bytes} (st : Option (Bytes × Bytes)) → Matches p t → Found p t st
Found-here none m = m
Found-here (some (q, r)) m = inl m

-- The three moves of the loop, each with its answer.
Found-saved :
    (x : ℕ) (p t : Bytes) (c : ℕ)
    → (x == b'*') ≡ true
    → Found p (c ∷ t) (some (p, c ∷ t))
    → Matches (x ∷ p) (c ∷ t)
Found-saved x p t c e (inl m) = star (ground arith) here m
Found-saved x p t c e (inr m) =
    let e' : x ≡ b'*' = ground arith in
    star-Suffix e' (next here) (subst (λ y. Matches (y ∷ p) t) (sym e') m)

Found-advanced :
    (x c : ℕ) (p t : Bytes) (st : Option (Bytes × Bytes))
    → (x == b'*') ≡ false
    → (x == b'?' || x == c) ≡ true
    → Found p t st
    → Found (x ∷ p) (c ∷ t) st
Found-advanced x c p t none n e m = one (ground arith) e m
Found-advanced x c p t (some (q, r)) n e (inl m) = inl (one (ground arith) e m)
Found-advanced x c p t (some (q, r)) n e (inr m) = inr m

Found-back : (q r : Bytes) → Found q (tail r) (some (q, tail r)) → Matches (b'*' ∷ q) (tail r)
Found-back q r (inl m) = star refl here m
Found-back q r (inr m) = star-Suffix refl (Suffix-tail (tail r)) m

glob_loop-Found :
    (fuel : ℕ) (p t : Bytes) (st : Option (Bytes × Bytes))
    → glob_loop fuel p t st ≡ true
    → Found p t st
unfolding glob_loop
glob_loop-Found zero p t st h = absurd (cc)
glob_loop-Found (suc fuel) p [] st h = Found-here st (Matches-stars p h)
glob_loop-Found (suc fuel) [] (c ∷ t) none h = absurd (cc)
glob_loop-Found (suc fuel) [] (c ∷ t) (some (q, r)) h =
    inr (Found-back q r (glob_loop-Found fuel q (tail r) (some (q, tail r)) h))
glob_loop-Found (suc fuel) (x ∷ p) (c ∷ t) st h = elim (Bool-cases (x == b'*')) [
  | inl e ↦
      Found-here st
        (Found-saved x p t c e (glob_loop-Found fuel p (c ∷ t) (some (p, c ∷ t)) (rw e at h)))
  | inr n ↦ elim (Bool-cases (x == b'?' || x == c)) [
    | inl e ↦ Found-advanced x c p t st n e (glob_loop-Found fuel p t st (rw (n, e) at h))
    | inr m ↦ back st (λ q r. glob_loop-Found fuel q (tail r) (some (q, tail r))) (rw (n, m) at h)
  ]
]
  where
    back :
        (s : Option (Bytes × Bytes))
        → ((q r : Bytes)
            → glob_loop fuel q (tail r) (some (q, tail r)) ≡ true
            → Found q (tail r) (some (q, tail r)))
        → (elim s [ none ↦ false | some (q, r) ↦ glob_loop fuel q (tail r) (some (q, tail r)) ])
          ≡ true
        → Found (x ∷ p) (c ∷ t) s
    back none ih k = absurd (cc)
    back (some (q, r)) ih k = inr (Found-back q r (ih q r k))

-- The whole loop, from its first state.
pub glob_bytes-Matches : (p t : Bytes) → glob_bytes p t ≡ true → Matches p t
unfolding glob_bytes
glob_bytes-Matches p t = glob_loop-Found (glob_fuel p t) p t none
