-- ===== src/Systemd/Tests.antt =====
-- Globs, prefixes, grants and dates of src/systemd.rs on concrete inputs.
use systemd_ops.Base.{
  All, ◌≡◌, refl, ◌↔◌, true, some, List, [], ◌∷◌, map, if◌then◌else◌, all, any, Str, codes, str_eq,
  as_bytes, trim, split, ok, err,
}
use systemd_ops.Systemd.Boot.{parse_critical_chain, parse_blame, strip_tree_prefix}
use systemd_ops.Systemd.Boot.Stripped.{IsBare, strip_tree_prefix-IsBare}
use systemd_ops.Systemd.Boot.Laws.{NamesUnit, parse-NamesUnit}
use systemd_ops.Systemd.Clock.{civil_from_days}
use systemd_ops.Systemd.Clock.Dates.{next_day, civil_from_days-calendar}
use systemd_ops.Systemd.Glob.{glob_match}
use systemd_ops.Systemd.Glob.Spec.{Matches}
use systemd_ops.Systemd.Glob.Complete.{glob_match-Matches}
use systemd_ops.Systemd.Grants.{allows, from_args}
use systemd_ops.Systemd.Grants.Laws.{Distinct, from_args_exact}
use systemd_ops.Systemd.Names.{Scope, units_read, journal_read, scope_name}
use systemd_ops.Systemd.Prefix.{bad_glob, is_glob_size, parse_write_prefix, require_write_unit}
use systemd_ops.Systemd.Prefix.Laws.{AnyMatches, parse_write_prefix_exact, require_write_unit_iff}

star_matches : glob_match (codes "managed-*.service") (codes "managed-a-b.service") ≡ true
unfolding glob_match
star_matches = refl

glob_match-Matches_example :
    (glob_match (codes "a*b") (codes "axxb") ≡ true)
    ↔ Matches (as_bytes (codes "a*b")) (as_bytes (codes "axxb"))
glob_match-Matches_example = glob_match-Matches (codes "a*b") (codes "axxb")

parse_write_prefix_exact_example : parse_write_prefix (codes "a-*, b-*") ≡ (
    if all is_glob_size (map trim (split b',' (codes "a-*, b-*")))
    then ok (map trim (split b',' (codes "a-*, b-*")))
    else err bad_glob)
parse_write_prefix_exact_example = parse_write_prefix_exact (codes "a-*, b-*")

require_write_unit_iff_example :
    (require_write_unit (some (codes "a-*" ∷ [])) (codes "a-1.service") ≡ ok tt) ↔ (
      (globs : List Str) × (some (codes "a-*" ∷ []) ≡ some globs)
      × AnyMatches globs (codes "a-1.service"))
require_write_unit_iff_example =
    require_write_unit_iff (some (codes "a-*" ∷ [])) (codes "a-1.service")

two_read :
    from_args (codes "units:read, journal:read,units:read") ≡ ok (units_read ∷ journal_read ∷ [])
unfolding from_args trim split str_eq
two_read = refl

from_args_exact_example :
    Distinct (units_read ∷ journal_read ∷ [])
    × ((z : Scope)
        → allows (units_read ∷ journal_read ∷ []) z
          ≡ any
              (λ part. str_eq (trim part) (scope_name z))
              (split b',' (codes "units:read, journal:read,units:read")))
from_args_exact_example = from_args_exact (codes "units:read, journal:read,units:read") two_read

civil_from_days-calendar_example :
    (civil_from_days 0 ≡ record { year = 1970; month = 1; day = 1 })
    × (civil_from_days 20_000 ≡ next_day (civil_from_days 19_999))
civil_from_days-calendar_example = civil_from_days-calendar 19_999

parse-NamesUnit_example :
    All NamesUnit (parse_critical_chain (codes "2ms a.service"))
    × All NamesUnit (parse_blame (codes "2ms a.service"))
parse-NamesUnit_example = parse-NamesUnit (codes "2ms a.service")

strip_tree_prefix-IsBare_example : IsBare (strip_tree_prefix (codes "  |-a.service @1s"))
strip_tree_prefix-IsBare_example = strip_tree_prefix-IsBare (codes "  |-a.service @1s")
