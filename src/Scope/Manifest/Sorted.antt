-- ===== src/Scope/Manifest/Sorted.antt =====
-- `sort()` and `dedup()` of src/scope.rs: a strictly ascending list of the same texts.
use systemd_ops.Base.{
  ◌≡◌, refl, subst, inl, inr, true, false, List, [], ◌∷◌, arith, Bool-cases, All, Str, str_eq,
  str_eq_iff,
}
use systemd_ops.Scope.Manifest.{text_ltb, insert_sorted, sort, skip_equal, dedup}

text_ltb-asym : (s t : Str) → text_ltb s t ≡ true → text_ltb t s ≡ false
unfolding text_ltb
text_ltb-asym [] [] h = refl
text_ltb-asym [] (d ∷ t) h = refl
text_ltb-asym (c ∷ s) [] h = cc
text_ltb-asym (c ∷ s) (d ∷ t) h = ground (arith, text_ltb-asym s t)

text_ltb-total : (s t : Str) → text_ltb s t ≡ false → str_eq s t ≡ false → text_ltb t s ≡ true
unfolding text_ltb str_eq
text_ltb-total [] [] h n = cc
text_ltb-total [] (d ∷ t) h n = cc
text_ltb-total (c ∷ s) [] h n = refl
text_ltb-total (c ∷ s) (d ∷ t) h n = ground (arith, text_ltb-total s t)

-- No text stands before a smaller one that follows it; each is smaller than the one that follows it.
abbrev Follows : Str → List Str → Type 0
Follows s [] = Unit
Follows s (t ∷ ts) = text_ltb t s ≡ false

abbrev IsSorted : List Str → Type 0
IsSorted [] = Unit
IsSorted (s ∷ ss) = Follows s ss × IsSorted ss

abbrev pub Below : Str → List Str → Type 0
Below s [] = Unit
Below s (t ∷ ts) = text_ltb s t ≡ true

abbrev pub IsAscending : List Str → Type 0
IsAscending [] = Unit
IsAscending (s ∷ ss) = Below s ss × IsAscending ss

insert_sorted-Follows :
    (s t : Str) (ts : List Str)
    → text_ltb t s ≡ true
    → Follows t ts
    → Follows t (insert_sorted s ts)
unfolding insert_sorted
insert_sorted-Follows s t [] h f = text_ltb-asym t s h
insert_sorted-Follows s t (u ∷ us) h f = elim (Bool-cases (text_ltb u s)) [
  | inl y ↦ rw y f
  | inr n ↦ rw n (text_ltb-asym t s h)
]

insert_sorted-IsSorted : (s : Str) (ts : List Str) → IsSorted ts → IsSorted (insert_sorted s ts)
unfolding insert_sorted
insert_sorted-IsSorted s [] h = (tt, tt)
insert_sorted-IsSorted s (t ∷ ts) h = elim (Bool-cases (text_ltb t s)) [
  | inl y ↦ rw y (insert_sorted-Follows s t ts y h.0, insert_sorted-IsSorted s ts h.1)
  | inr n ↦ rw n (n, h)
]

sort-IsSorted : (ss : List Str) → IsSorted (sort ss)
unfolding sort
sort-IsSorted [] = tt
sort-IsSorted (s ∷ ss) = insert_sorted-IsSorted s (sort ss) (sort-IsSorted ss)

insert_sorted-All {ℓ} :
    (P : Str → Type ℓ) (s : Str) (ts : List Str) → P s → All P ts → All P (insert_sorted s ts)
unfolding insert_sorted
insert_sorted-All P s [] p h = (p, tt)
insert_sorted-All P s (t ∷ ts) p h = elim (Bool-cases (text_ltb t s)) [
  | inl y ↦ rw y (h.0, insert_sorted-All P s ts p h.1)
  | inr n ↦ rw n (p, h)
]

sort-All {ℓ} : (P : Str → Type ℓ) (ss : List Str) → All P ss → All P (sort ss)
unfolding sort
sort-All P [] h = tt
sort-All P (s ∷ ss) h = insert_sorted-All P s (sort ss) h.0 (sort-All P ss h.1)

skip_equal-All {ℓ} :
    (P : Str → Type ℓ) (s : Str) (ts : List Str) → All P ts → All P (skip_equal s ts)
unfolding skip_equal
skip_equal-All P s [] h = tt
skip_equal-All P s (t ∷ ts) h = elim (Bool-cases (str_eq t s)) [
  | inl y ↦ rw y (skip_equal-All P t ts h.1)
  | inr n ↦ rw n (h.0, skip_equal-All P t ts h.1)
]

dedup-All {ℓ} : (P : Str → Type ℓ) (ss : List Str) → All P ss → All P (dedup ss)
unfolding dedup
dedup-All P [] h = tt
dedup-All P (s ∷ ss) h = (h.0, skip_equal-All P s ss h.1)

-- What holds of all texts holds of all that are left.
pub dedup-sort-All {ℓ} : (P : Str → Type ℓ) (ss : List Str) → All P ss → All P (dedup (sort ss))
dedup-sort-All P ss h = dedup-All P (sort ss) (sort-All P ss h)

skip_equal-Below :
    (s : Str) (ts : List Str)
    → Follows s ts
    → IsSorted ts
    → Below s (skip_equal s ts) × IsAscending (skip_equal s ts)
unfolding skip_equal
skip_equal-Below s [] f h = (tt, tt)
skip_equal-Below s (t ∷ ts) f h = elim (Bool-cases (str_eq t s)) [
  | inl y ↦ rw y (
      subst (λ u. Below u (skip_equal t ts) × IsAscending (skip_equal t ts)) ((str_eq_iff t s).0 y)
        (skip_equal-Below t ts h.0 h.1))
  | inr n ↦ rw n (text_ltb-total t s f n, skip_equal-Below t ts h.0 h.1)
]

dedup-IsAscending : (ss : List Str) → IsSorted ss → IsAscending (dedup ss)
unfolding dedup
dedup-IsAscending [] h = tt
dedup-IsAscending (s ∷ ss) h = skip_equal-Below s ss h.0 h.1

pub dedup-sort-IsAscending : (ss : List Str) → IsAscending (dedup (sort ss))
dedup-sort-IsAscending ss = dedup-IsAscending (sort ss) (sort-IsSorted ss)
