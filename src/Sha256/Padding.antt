-- ===== src/Sha256/Padding.antt =====
-- The padding of src/sha256.rs fills whole blocks, and the blocks hold every byte of it.
use systemd_ops.Base.{
  ℕ, zero, suc, ◌-◌, ◌*◌, ◌/◌, ◌%◌, ◌<◌, ◌≡◌, refl, sym, ap, ◌∙◌, inl, inr, List, [], ◌∷◌, ◌++◌,
  arith, ◌==◌, Bool-cases, length, take, drop, replicate, length-append, length-drop, Bytes,
}
use mathlib.Core.List.{append-nil, append_assoc}
use systemd_ops.Sha256.{push_zeros, pad, bit_len, to_be_bytes, chunks_exact}

pub length-to_be_bytes : (n x : ℕ) → length (to_be_bytes n x) ≡ n
unfolding to_be_bytes
length-to_be_bytes zero x = refl
length-to_be_bytes (suc n) x = ap suc (length-to_be_bytes n x)

-- The zeros that `push_zeros` adds with enough fuel: fewer than the fuel, up to 56 modulo 64.
record Filled (fuel : ℕ) (p q : Bytes) : Type 0 where
  zeros : ℕ
  adds : q ≡ p ++ replicate zeros 0
  few : zeros < fuel
  ends : length q % 64 ≡ 56

push_zeros-Filled-here : (fuel : ℕ) (p : Bytes) → length p % 64 ≡ 56 → Filled (suc fuel) p p
push_zeros-Filled-here fuel p h = record {
  zeros = 0;
  adds = sym (append-nil p);
  few = omega arith;
  ends = h;
}

push_zeros-Filled :
    (fuel : ℕ) (p : Bytes) → (120 - length p % 64) % 64 < fuel → Filled fuel p (push_zeros fuel p)
unfolding push_zeros
push_zeros-Filled zero p h = elim h [ ]
push_zeros-Filled (suc fuel) p h = elim (Bool-cases (length p % 64 == 56)) [
  | inl stop ↦ rw stop (push_zeros-Filled-here fuel p (ground arith))
  | inr more ↦ rw more (
      let f = push_zeros-Filled fuel (p ++ 0 ∷ []) (ground (arith, length-append p (0 ∷ []))) in
      record {
        zeros = suc f.zeros;
        adds = f.adds ∙ append_assoc p (0 ∷ []) (replicate f.zeros 0);
        few = omega (arith, f.few);
        ends = f.ends;
      })
]

-- `pad` appends 0x80, fewer than 64 zeros and the bit length, and fills whole blocks of 64.
pub pad_shape :
    (msg : Bytes)
    → (k : ℕ) × (pad msg ≡ (msg ++ 0x80 ∷ []) ++ replicate k 0 ++ to_be_bytes 8 (bit_len msg))
      × (k < 64)
      × (length (pad msg) % 64 ≡ 0)
unfolding pad
pad_shape msg =
    let start = msg ++ 0x80 ∷ [] in
    let size = to_be_bytes 8 (bit_len msg) in
    let f = push_zeros-Filled 64 start (omega arith) in
    (
      f.zeros,
      ap (λ x. x ++ size) f.adds,
      f.few,
      omega (
        arith,
        f.ends,
        length-append (push_zeros 64 start) size,
        length-to_be_bytes 8 (bit_len msg),
      ),
    )

abbrev pub concat : List Bytes → Bytes
concat [] = []
concat (b ∷ bs) = b ++ concat bs

take-drop : (n : ℕ) (b rest : Bytes) → take n b ++ (drop n b ++ rest) ≡ b ++ rest
take-drop zero b rest = refl
take-drop (suc n) [] rest = refl
take-drop (suc n) (x ∷ b) rest = ap (◌∷◌ x) (take-drop n b rest)

pub concat-chunks_exact : (n : ℕ) (b : Bytes) → length b ≡ n * 64 → concat (chunks_exact n 64 b) ≡ b
unfolding chunks_exact
concat-chunks_exact zero [] h = refl
concat-chunks_exact zero (x ∷ b) h = absurd (omega arith)
concat-chunks_exact (suc n) b h =
    rw (concat-chunks_exact n (drop 64 b) (omega (arith, length-drop 64 b)))
      (rw (← append-nil (drop 64 b)) (take-drop 64 b [] ∙ append-nil b))

-- The blocks that are compressed hold the padded message, with no byte left over.
pub concat-chunks_exact-pad :
    (msg : Bytes) → concat (chunks_exact (length (pad msg) / 64) 64 (pad msg)) ≡ pad msg
concat-chunks_exact-pad msg =
    concat-chunks_exact (length (pad msg) / 64) (pad msg) (omega (arith, (pad_shape msg).3))
