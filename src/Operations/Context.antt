-- ===== src/Operations/Context.antt =====
-- The stems of operations and the context of a call in src/operations.rs. The write prefix in force
-- is an argument.
pub mod Laws
use systemd_ops.Base.{
  ℕ, zero, suc, ◌+◌, ◌-◌, ◌*◌, ◌/◌, ◌%◌, ◌^◌, ◌≤◌, ◌<◌, min, max, String, ◌≡◌, refl, sym, ap, ap₂,
  ◌∙◌, subst, ◌≢◌, ◌↔◌, ◌⊎◌, inl, inr, Bool, true, false, not, ◌&&◌, ◌||◌, Option, none, some, List,
  [], ◌∷◌, ◌++◌, map, reverse, arith, ltb, leb, ◌==◌, if◌then◌else◌, within, leb→le, ltb→lt, ==_iff,
  Bool-cases, Option-cases, length, get_or, take, drop, replicate, all, any, retain, All,
  length-append, length-take, length-drop, length-replicate, length-map, All-append, Str, Bytes,
  IsByte, codes, str_eq, str_eq_iff, str_eq_refl, utf8_char, as_bytes, len, is_empty,
  is_ascii_lower, is_ascii_upper, is_ascii_digit, is_ascii_alphanumeric, is_whitespace, contains,
  trim_start, trim_end, trim, strip_prefix, starts_with, ends_with, contains_str, split, split_once,
  lines, join, ascii_lower, push_front, Result, ok, err, ◌>>=◌, ◌>>◌, ensure, ok_or, all_below,
  all_below_sound, bind-eq-ok, Result-cases,
}
use systemd_ops.Json.{Value, null, bool, int, float, str, array, obj, get}
use systemd_ops.Systemd.Names.{is_valid_unit_name}
use systemd_ops.Systemd.Prefix.{write_unit_allowed, require_write_unit}

abbrev pub suffixes : List Str
suffixes =
    codes ".service"
    ∷ codes ".timer"
    ∷ codes ".socket"
    ∷ codes ".path"
    ∷ codes ".target"
    ∷ codes ".slice"
    ∷ codes ".scope"
    ∷ codes ".mount"
    ∷ codes ".automount"
    ∷ codes ".swap"
    ∷ codes ".device"
    ∷ []

-- `strip_suffix`.
pub strip_suffix : Str → Str → Option Str
strip_suffix suffix [] = if is_empty suffix then some [] else none
strip_suffix suffix (c ∷ s) = elim (str_eq suffix (c ∷ s)) [
  | true ↦ some []
  | false ↦ elim (strip_suffix suffix s) [ none ↦ none | some front ↦ some (c ∷ front) ]
]

pub first_stem : List Str → Str → Str
first_stem [] name = name
first_stem (suffix ∷ rest) name = elim (strip_suffix suffix name) [
  | some stem ↦ stem
  | none ↦ first_stem rest name
]

pub stem_of : Str → Str
stem_of name = first_stem suffixes name

unfoldable pub is_operation_stem : Option (List Str) → Str → Bool
is_operation_stem prefix stem =
    is_valid_unit_name (stem ++ codes ".service")
    && write_unit_allowed prefix (stem ++ codes ".service")

pub write_prefix_label : Option (List Str) → Str
write_prefix_label none = codes "no write-prefix"
write_prefix_label (some globs) = join (codes ",") globs

unfoldable pub validate_stem : Option (List Str) → Str → Result (Unit {0})
validate_stem prefix stem = do
  ensure (not (any (λ suffix. ends_with suffix stem) suffixes))
      (codes "operation unit is the stem without a suffix; got '" ++ (stem ++ codes "'"))
  ensure (is_operation_stem prefix stem) (
      codes "operation unit must match '"
      ++ (write_prefix_label prefix ++ (codes "'; refused '" ++ (stem ++ codes "'"))))
  require_write_unit prefix (stem ++ codes ".service")

-- `trim_end_matches('/')`.
unfoldable pub drop_slashes : Str → Str
drop_slashes [] = []
drop_slashes (c ∷ s) =
    let rest = drop_slashes s in if is_empty rest && c == b'/' then [] else c ∷ rest

unfoldable pub normalize_cwd : Str → Result Str
normalize_cwd s = do
  ensure (not (is_empty s) && leb (len s) 1_024) (codes "context.cwd must be 1..1024 characters")
  ensure (starts_with (b'/' ∷ []) s)
      (codes "context.cwd must be an absolute path; got '" ++ (s ++ codes "'"))
  ensure (not (contains s 10) && not (contains s 0)) (codes "context.cwd must not contain newlines")
  ok (drop_slashes s)

pub cwd_of : Option Value → Result (Option Str)
cwd_of none = ok none
cwd_of (some null) = ok none
cwd_of (some (str s)) = do cwd ← normalize_cwd s; ok (some cwd)
cwd_of (some _) = err (codes "context.cwd must be a string")

pub context_cwd : Option Value → Result (Option Str)
context_cwd none = ok none
context_cwd (some null) = ok none
context_cwd (some (obj fs)) = cwd_of (get (obj fs) (codes "cwd"))
context_cwd (some _) = err (codes "context must be an object")

pub parse_context_cwd : Value → Result (Option Str)
parse_context_cwd args = context_cwd (get args (codes "context"))
