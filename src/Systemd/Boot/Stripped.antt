-- ===== src/Systemd/Boot/Stripped.antt =====
-- What is left of a line without its tree prefix.
use systemd_ops.Base.{
  ℕ, zero, suc, ◌+◌, ◌≤◌, ◌<◌, ◌≡◌, refl, subst, inl, inr, none, some, List, [], ◌∷◌, arith, ◌==◌,
  Bool-cases, Option-cases, length, All, Str, strip_prefix,
}
use systemd_ops.Systemd.Boot.{connectors, strip_any, skip_spaces, strip_loop, strip_tree_prefix}

skip_spaces-length : (s : Str) → length (skip_spaces s) ≤ length s
unfolding skip_spaces
skip_spaces-length [] = omega arith
skip_spaces-length (c ∷ s) = ground (arith, skip_spaces-length s)

skip_spaces_twice : (s : Str) → skip_spaces (skip_spaces s) ≡ skip_spaces s
unfolding skip_spaces
skip_spaces_twice [] = refl
skip_spaces_twice (c ∷ s) = elim (Bool-cases (c == 32)) [
  | inl y ↦ rw y (skip_spaces_twice s)
  | inr n ↦ rw n (rw n refl)
]

strip_prefix-length :
    (p s : Str) {rest : Str} → strip_prefix p s ≡ some rest → length s ≡ length p + length rest
unfolding strip_prefix
strip_prefix-length [] s h = ground arith
strip_prefix-length (x ∷ p) [] h = cc
strip_prefix-length (x ∷ p) (c ∷ s) h = elim (Bool-cases (x == c)) [
  | inl y ↦ omega (arith, strip_prefix-length p s (rw y at h))
  | inr n ↦ let no_rest = rw n at h in cc
]

strip_any-length :
    (ps : List Str) (s : Str) {rest : Str}
    → All (λ p. 0 < length p) ps
    → strip_any ps s ≡ some rest
    → length rest < length s
unfolding strip_any
strip_any-length [] s full h = cc
strip_any-length (p ∷ ps) s {rest} full h = elim (Option-cases (strip_prefix p s)) [
  | inl e ↦ strip_any-length ps s full.1 (rw (e, strip_any) at h)
  | inr (r, e) ↦
      let same : some r ≡ some rest = rw (e, strip_any) at h in
      let is : length r ≡ length rest = cc in omega (arith, strip_prefix-length p s e, full.0)
]

-- A text in front of which nothing of the tree stands.
abbrev pub IsBare : Str → Type 0
IsBare s = (strip_any connectors s ≡ none) × (skip_spaces s ≡ s)

strip_loop-IsBare : (fuel : ℕ) (rest : Str) → length rest ≤ fuel → IsBare (strip_loop fuel rest)
unfolding strip_loop
strip_loop-IsBare zero [] h =
    (unfold strip_any skip_spaces strip_prefix in refl, unfold skip_spaces in refl)
strip_loop-IsBare zero (c ∷ s) h = absurd (omega arith)
strip_loop-IsBare (suc fuel) rest h =
    elim (Option-cases (strip_any connectors (skip_spaces rest))) [
      | inl e ↦
          let here : skip_spaces rest ≡ strip_loop (suc fuel) rest = rw (e, strip_loop) refl in
          subst IsBare here (e, skip_spaces_twice rest)
      | inr (next, e) ↦
          let there : strip_loop fuel next ≡ strip_loop (suc fuel) rest = rw (e, strip_loop) refl in
          let less = strip_any-length connectors (skip_spaces rest) (omega arith) e in
          subst IsBare there
            (strip_loop-IsBare fuel next (omega (arith, less, skip_spaces-length rest)))
    ]

-- Whatever the line, its tree prefix is taken off whole: no connector and no space is left in front,
-- and the loop ends within its fuel.
pub strip_tree_prefix-IsBare : (line : Str) → IsBare (strip_tree_prefix line)
unfolding strip_tree_prefix
strip_tree_prefix-IsBare line = strip_loop-IsBare (length line) line (omega arith)
