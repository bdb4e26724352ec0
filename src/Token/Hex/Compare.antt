-- ===== src/Token/Hex/Compare.antt =====
-- The comparison in constant time tells whether two byte strings are equal.
use Prim.Native.Nat.{bit_or, bit_xor}
use systemd_ops.Base.{
  ℕ, ◌<◌, ◌≡◌, refl, ap, ◌↔◌, inl, inr, Bool, true, false, not, ◌&&◌, [], ◌∷◌, arith, ltb, ◌==◌,
  Bool-cases, length, All, Bytes, IsByte, all_below, all_below_sound,
}
use systemd_ops.Token.Hex.{ct_loop, ct_eq}

abbrev pairs : (ℕ → ℕ → Bool) → Bool
pairs p = all_below 256 (λ x. all_below 256 (λ y. p x y))

pairs_sound : (p : ℕ → ℕ → Bool) (x y : ℕ) → pairs p ≡ true → x < 256 → y < 256 → p x y ≡ true
pairs_sound p x y h hx hy =
    all_below_sound 256 (λ y. p x y) y (all_below_sound 256 (λ x. all_below 256 (p x)) x h hx) hy

abbrev iff : Bool → Bool → Bool
iff true b = b
iff false b = not b

abbrev xor_law : ℕ → ℕ → Bool
xor_law x y = iff (bit_xor x y == 0) (x == y) && ltb (bit_xor x y) 256

xor_table : pairs xor_law ≡ true
unfolding all_below
xor_table = refl

abbrev or_law : ℕ → ℕ → Bool
or_law x y = iff (bit_or x y == 0) (x == 0 && y == 0) && ltb (bit_or x y) 256

or_table : pairs or_law ≡ true
unfolding all_below
or_table = refl

ct_loop_iff :
    (acc : ℕ) (a b : Bytes)
    → acc < 256
    → All IsByte a
    → All IsByte b
    → length a ≡ length b
    → (ct_loop acc a b ≡ 0) ↔ ((acc ≡ 0) × (a ≡ b))
unfolding ct_loop
ct_loop_iff acc [] [] h ha hb e = (λ z. (z, refl), λ z. z.0)
ct_loop_iff acc [] (y ∷ b) h ha hb e = absurd (omega arith)
ct_loop_iff acc (x ∷ a) [] h ha hb e = absurd (omega arith)
ct_loop_iff acc (x ∷ a) (y ∷ b) h ha hb e =
    let t = pairs_sound xor_law x y xor_table ha.0 hb.0 in
    let small : bit_xor x y < 256 = ground arith in
    let u = pairs_sound or_law acc (bit_xor x y) or_table h small in
    let next = ct_loop_iff (bit_or acc (bit_xor x y)) a b (ground arith) ha.1 hb.1 (omega arith) in
    (λ z. ground (arith, next.0 z), λ z. ground (arith, next.1))

-- `ct_eq` is true exactly for equal byte strings.
pub ct_eq_iff : (a b : Bytes) → All IsByte a → All IsByte b → (ct_eq a b ≡ true) ↔ (a ≡ b)
unfolding ct_eq
ct_eq_iff a b ha hb = elim (Bool-cases (length a == length b)) [
  | inl same ↦
      let e : length a ≡ length b = ground arith in
      let loop = ct_loop_iff 0 a b (omega arith) ha hb e in
      rw same (λ z. (loop.0 (ground arith)).1, λ z. ground (arith, loop.1 (refl, z)))
  | inr differ ↦ rw differ (λ z. cc, λ z. ground (arith, differ, ap length z))
]
