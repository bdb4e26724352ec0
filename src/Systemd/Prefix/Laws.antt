-- ===== src/Systemd/Prefix/Laws.antt =====
-- What a write prefix accepts, and which units may be written under it.
use systemd_ops.Base.{
  ℕ, ◌≡◌, refl, subst, ◌≢◌, ◌↔◌, ◌⊎◌, inl, inr, true, not, Option, none, some, List, [], ◌∷◌, map,
  arith, ◌==◌, if◌then◌else◌, Bool-cases, all, any, Str, codes, as_bytes, trim, split, push_front,
  Result, ok, err, ◌>>=◌, ◌>>◌, ensure,
}
use systemd_ops.Systemd.Glob.{glob_match}
use systemd_ops.Systemd.Glob.Spec.{Matches}
use systemd_ops.Systemd.Glob.Complete.{glob_match-Matches}
use systemd_ops.Systemd.Prefix.{
  bad_glob, is_nil, is_glob_size, parse_globs, parse_write_prefix, write_unit_allowed,
  require_write_unit,
}

abbrev Trimmed : List Str → Result (List Str)
Trimmed parts = if all is_glob_size (map trim parts) then ok (map trim parts) else err bad_glob

parse_globs_exact : (parts : List Str) → parse_globs parts ≡ Trimmed parts
unfolding parse_globs
parse_globs_exact [] = refl
parse_globs_exact (part ∷ rest) = ground (arith, parse_globs_exact rest)

split-ne-nil : (sep : ℕ) (s : Str) → split sep s ≢ []
unfolding split
split-ne-nil sep [] h = cc
split-ne-nil sep (c ∷ s) h = go (split sep s) (ground arith)
  where
    go : (r : List Str) → ((if c == sep then [] ∷ r else push_front c r) ≡ []) → ⊥
    go [] k = ground arith
    go (p ∷ ps) k = ground arith

-- A write prefix is the list of its comma-separated globs, trimmed, if each has 1 to 128 bytes;
-- with any other glob the whole prefix is refused.
pub parse_write_prefix_exact :
    (spec : Str)
    → parse_write_prefix spec ≡ (
        if all is_glob_size (map trim (split b',' spec))
        then ok (map trim (split b',' spec))
        else err bad_glob)
unfolding parse_write_prefix
parse_write_prefix_exact spec = go (split b',' spec) (split-ne-nil b',' spec)
  where
    go :
        (parts : List Str)
        → parts ≢ []
        → (parse_globs parts >>= λ globs.
            ensure (not (is_nil globs)) (codes "--write-prefix needs at least one glob")
            >> ok globs)
          ≡ Trimmed parts
    go [] h = absurd (h refl)
    go (p ∷ ps) h = ground (arith, parse_globs_exact (p ∷ ps))

-- Some glob of the list matches the name.
abbrev pub AnyMatches : List Str → Str → Type 0
AnyMatches [] name = ⊥
AnyMatches (g ∷ gs) name = Matches (as_bytes g) (as_bytes name) ⊎ AnyMatches gs name

any→AnyMatches :
    (globs : List Str) (name : Str)
    → any (λ g. glob_match g name) globs ≡ true
    → AnyMatches globs name
any→AnyMatches [] name h = cc
any→AnyMatches (g ∷ gs) name h = elim (Bool-cases (glob_match g name)) [
  | inl e ↦ inl ((glob_match-Matches g name).0 e)
  | inr n ↦ inr (any→AnyMatches gs name (rw n at h))
]

AnyMatches→any :
    (globs : List Str) (name : Str)
    → AnyMatches globs name
    → any (λ g. glob_match g name) globs ≡ true
AnyMatches→any [] name h = absurd h
AnyMatches→any (g ∷ gs) name (inl m) = rw ((glob_match-Matches g name).1 m)
AnyMatches→any (g ∷ gs) name (inr m) = ground (arith, AnyMatches→any gs name m)

-- A write is let through exactly if a prefix is set and one of its globs matches the unit's name.
pub require_write_unit_iff :
    (prefix : Option (List Str)) (name : Str)
    → (require_write_unit prefix name ≡ ok tt)
      ↔ ((globs : List Str) × (prefix ≡ some globs) × AnyMatches globs name)
unfolding require_write_unit write_unit_allowed
require_write_unit_iff none name = (λ h. cc, λ (gs, e, m). cc)
require_write_unit_iff (some globs) name = (
  λ h. (globs, refl, any→AnyMatches globs name (ground arith)),
  λ (gs, e, m).
      let same : gs ≡ globs = cc in
      ground (arith, AnyMatches→any globs name (subst (λ x. AnyMatches x name) same m)),
)
