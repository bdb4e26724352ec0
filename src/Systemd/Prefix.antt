-- ===== src/Systemd/Prefix.antt =====
-- The write prefix of src/systemd.rs: no unit is written unless one of its globs matches.
pub mod Laws
use systemd_ops.Base.{
  ℕ, zero, suc, ◌+◌, ◌-◌, ◌*◌, ◌/◌, ◌%◌, ◌^◌, ◌≤◌, ◌<◌, min, max, String, ◌≡◌, refl, sym, ap, ◌∙◌,
  subst, ◌≢◌, ◌↔◌, ◌⊎◌, inl, inr, Bool, true, false, not, ◌&&◌, ◌||◌, Option, none, some, List, [],
  ◌∷◌, ◌++◌, map, reverse, arith, ltb, leb, ◌==◌, if◌then◌else◌, within, leb→le, ltb→lt, ==_iff,
  Bool-cases, Option-cases, length, get_or, take, drop, replicate, all, any, retain, All,
  length-append, length-take, length-drop, length-replicate, length-map, All-append, Str, Bytes,
  codes, str_eq, str_eq_iff, str_eq_refl, utf8_char, as_bytes, len, is_empty, is_ascii_lower,
  is_ascii_upper, is_ascii_digit, is_ascii_alphanumeric, is_whitespace, contains, trim_start,
  trim_end, trim, strip_prefix, starts_with, ends_with, contains_str, split, split_once, join,
  ascii_lower, Result, ok, err, ◌>>=◌, ◌>>◌, ensure, ok_or, bind-eq-ok, Result-cases,
}
use systemd_ops.Systemd.Glob.{glob_match}

pub bad_glob : Str
bad_glob = codes "--write-prefix glob must be 1..128 characters"

abbrev pub is_nil : List Str → Bool
is_nil [] = true
is_nil (g ∷ gs) = false

abbrev pub is_glob_size : Str → Bool
is_glob_size g = not (is_empty g) && leb (len g) 128

pub parse_globs : List Str → Result (List Str)
unfolding trim len bad_glob
parse_globs [] = ok []
parse_globs (part ∷ rest) = do
  let g = trim part
  ensure (is_glob_size g) bad_glob
  globs ← parse_globs rest
  ok (g ∷ globs)

unfoldable pub parse_write_prefix : Str → Result (List Str)
unfolding parse_globs split
parse_write_prefix spec = do
  globs ← parse_globs (split b',' spec)
  ensure (not (is_nil globs)) (codes "--write-prefix needs at least one glob")
  ok globs

-- The prefix in force is the thread's `WRITE_PREFIX`.
unfoldable pub write_unit_allowed : Option (List Str) → Str → Bool
unfolding glob_match
write_unit_allowed none name = false
write_unit_allowed (some globs) name = any (λ g. glob_match g name) globs

pub writes_refused : Option (List Str) → Str → Str
unfolding join
writes_refused none name =
    codes "writes are disabled until a write-prefix is configured; refused '" ++ (name ++ codes "'")
writes_refused (some globs) name =
    codes "writes are restricted to units matching '"
    ++ (join (codes ",") globs ++ (codes "'; refused '" ++ (name ++ codes "'")))

unfoldable pub require_write_unit : Option (List Str) → Str → Result (Unit {0})
unfolding write_unit_allowed
require_write_unit prefix name =
    ensure (write_unit_allowed prefix name) (writes_refused prefix name)
