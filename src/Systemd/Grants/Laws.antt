-- ===== src/Systemd/Grants/Laws.antt =====
-- Grants are read with no repetition, and `extend` is a union.
use systemd_ops.Base.{
  ◌≡◌, refl, inl, inr, Bool, true, false, ◌||◌, Option, none, some, List, [], ◌∷◌, ◌++◌, arith,
  Bool-cases, Option-cases, all, any, Str, str_eq, str_eq_iff, is_empty, trim, split, ok,
}
use systemd_ops.Systemd.Names.{
  Scope, units_read, journal_read, boot_read, units_write, scope_eq, scope_parse, scope_name,
}
use systemd_ops.Systemd.Grants.{allows, push_scope, push_parts, from_args, extend}

-- No scope stands twice.
abbrev pub Distinct : List Scope → Type 0
Distinct [] = Unit
Distinct (x ∷ xs) = (allows xs x ≡ false) × Distinct xs

scope_eq_sym : (a b : Scope) → scope_eq a b ≡ scope_eq b a
unfolding scope_eq
scope_eq_sym a b = ground arith

scope_eq-eq : (a b : Scope) → scope_eq a b ≡ true → a ≡ b
unfolding scope_eq
scope_eq-eq a b h = ground arith

allows-concat :
    (xs : List Scope) (y z : Scope) → allows (xs ++ y ∷ []) z ≡ (allows xs z || scope_eq z y)
unfolding allows
allows-concat [] y z = ground arith
allows-concat (x ∷ xs) y z = ground (arith, allows-concat xs y z)

Distinct-concat :
    (xs : List Scope) (y : Scope) → Distinct xs → allows xs y ≡ false → Distinct (xs ++ y ∷ [])
unfolding allows
Distinct-concat [] y d h = (refl, tt)
Distinct-concat (x ∷ xs) y d h = (
  ground (arith, allows-concat xs y x, scope_eq_sym x y),
  Distinct-concat xs y d.1 (ground arith),
)

push_scope-Distinct : (xs : List Scope) (y : Scope) → Distinct xs → Distinct (push_scope xs y)
unfolding push_scope
push_scope-Distinct xs y d = elim (Bool-cases (allows xs y)) [
  | inl old ↦ rw old d
  | inr new ↦ rw new (Distinct-concat xs y d new)
]

allows-push_scope :
    (xs : List Scope) (y z : Scope) → allows (push_scope xs y) z ≡ (allows xs z || scope_eq z y)
unfolding push_scope scope_eq
allows-push_scope xs y z = elim (Bool-cases (allows xs y)) [
  | inl old ↦ rw old (ground (arith, scope_eq-eq z y))
  | inr new ↦ rw new (allows-concat xs y z)
]

-- `extend` allows what either side allows, and repeats nothing.
pub extend_union :
    (xs ys : List Scope)
    → Distinct xs
    → Distinct (extend xs ys)
      × ((z : Scope) → allows (extend xs ys) z ≡ (allows xs z || allows ys z))
unfolding extend allows
extend_union xs [] d = (d, λ z. ground arith)
extend_union xs (y ∷ ys) d =
    let (e, all) = extend_union (push_scope xs y) ys (push_scope-Distinct xs y d) in
    (e, λ z. ground (arith, all z, allows-push_scope xs y z))

-- What reading one more part does.
record Reads (spec : List Str) (grants out : List Scope) : Type 0 where
  pub distinct : Distinct grants → Distinct out
  pub allowed :
      (z : Scope)
      → allows out z ≡ (allows grants z || any (λ part. str_eq (trim part) (scope_name z)) spec)

abbrev is_scope : Option Scope → Scope → Bool
is_scope none z = false
is_scope (some x) z = scope_eq z x

-- The word of a scope is read as that scope, and no other text is.
str_eq-scope_name : (s : Str) (z : Scope) → str_eq s (scope_name z) ≡ is_scope (scope_parse s) z
unfolding scope_parse scope_eq
str_eq-scope_name s z = ground (
  arith,
  str_eq_iff s (scope_name z),
  str_eq_iff (scope_name units_read) s,
  str_eq_iff (scope_name journal_read) s,
  str_eq_iff (scope_name boot_read) s,
  str_eq_iff (scope_name units_write) s,
)

empty_is_no_scope : (p : Str) (z : Scope) → is_empty p ≡ true → str_eq p (scope_name z) ≡ false
unfolding str_eq scope_name
empty_is_no_scope [] units_read h = refl
empty_is_no_scope [] z h = refl
empty_is_no_scope (c ∷ p) z h = absurd (cc)

Reads-skip :
    (part : Str) (rest : List Str) (grants out : List Scope)
    → is_empty (trim part) ≡ true
    → Reads rest grants out
    → Reads (part ∷ rest) grants out
Reads-skip part rest grants out e r = record {
  distinct = r.distinct;
  allowed = λ z. ground (arith, r.allowed z, empty_is_no_scope (trim part) z e);
}

Reads-push :
    (part : Str) (rest : List Str) (grants out : List Scope) (x : Scope)
    → scope_parse (trim part) ≡ some x
    → Reads rest (push_scope grants x) out
    → Reads (part ∷ rest) grants out
Reads-push part rest grants out x e r = record {
  distinct = λ d. r.distinct (push_scope-Distinct grants x d);
  allowed = λ z.
      ground (arith, r.allowed z, allows-push_scope grants x z, str_eq-scope_name (trim part) z, e);
}

push_parts-Reads :
    (parts : List Str) (grants : List Scope) {out : List Scope}
    → push_parts parts grants ≡ ok out
    → Reads parts grants out
unfolding push_parts
push_parts-Reads [] grants h = record {
  distinct = λ d. ground (arith, h, d);
  allowed = λ z. ground arith;
}
push_parts-Reads (part ∷ rest) grants {out} h = elim (Bool-cases (is_empty (trim part))) [
  | inl e ↦ Reads-skip part rest grants out e (push_parts-Reads rest grants (rw e at h))
  | inr n ↦ elim (Option-cases (scope_parse (trim part))) [
    | inl unknown ↦ absurd (cc (rw (n, unknown) at h))
    | inr (x, e) ↦
        Reads-push part rest grants out x e
          (push_parts-Reads rest (push_scope grants x) (rw (n, e) at h))
  ]
]

-- Where a `--grant` text is read, it allows exactly the scopes that one of its parts names, and
-- lists none twice.
pub from_args_exact :
    (spec : Str) {out : List Scope}
    → from_args spec ≡ ok out
    → Distinct out
      × ((z : Scope)
          → allows out z ≡ any (λ part. str_eq (trim part) (scope_name z)) (split b',' spec))
unfolding from_args
from_args_exact spec h =
    let r = push_parts-Reads (split b',' spec) [] h in (r.distinct tt, λ z. r.allowed z)
