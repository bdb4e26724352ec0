-- ===== src/Operations/Context/Laws.antt =====
-- Which stems may name an operation.
use systemd_ops.Base.{
  ◌≡◌, refl, Bool, true, false, not, ◌&&◌, Option, some, List, ◌++◌, any, Str, codes, ends_with, ok,
  ensure, bind-eq-ok,
}
use systemd_ops.Systemd.Names.{is_valid_unit_name}
use systemd_ops.Systemd.Prefix.Laws.{AnyMatches, require_write_unit_iff}
use systemd_ops.Operations.Context.{suffixes, is_operation_stem, validate_stem}

-- A stem that is accepted ends in no unit suffix, and its service has a valid unit name that some
-- glob of the write prefix matches.
pub validate_stem-AnyMatches :
    (prefix : Option (List Str)) (stem : Str)
    → validate_stem prefix stem ≡ ok tt
    → (any (λ suffix. ends_with suffix stem) suffixes ≡ false)
      × (is_valid_unit_name (stem ++ codes ".service") ≡ true)
      × ((globs : List Str) × (prefix ≡ some globs) × AnyMatches globs (stem ++ codes ".service"))
unfolding validate_stem is_operation_stem
validate_stem-AnyMatches prefix stem h =
    let (u, e1, h1) =
      bind-eq-ok
        (ensure (not (any (λ suffix. ends_with suffix stem) suffixes))
          (codes "operation unit is the stem without a suffix; got '" ++ (stem ++ codes "'")))
        _ h in
    let (v, e2, h2) = bind-eq-ok (ensure (is_operation_stem prefix stem) _) _ h1 in
    (
      plain (any (λ suffix. ends_with suffix stem) suffixes) _ e1,
      valid _ _ _ e2,
      (require_write_unit_iff prefix (stem ++ codes ".service")).0 h2,
    )
  where
    plain : (b : Bool) (e : Str) → ensure (not b) e ≡ ok tt → b ≡ false
    plain true e k = cc
    plain false e k = refl

    valid : (a b : Bool) (e : Str) → ensure (a && b) e ≡ ok tt → a ≡ true
    valid true b e k = refl
    valid false b e k = cc
