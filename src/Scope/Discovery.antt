-- ===== src/Scope/Discovery.antt =====
-- Where src/scope.rs looks for the manifest of a scope.
pub mod Nearest
use systemd_ops.Base.{
  ℕ, zero, suc, ◌+◌, ◌-◌, ◌*◌, ◌/◌, ◌%◌, ◌^◌, ◌≤◌, ◌<◌, min, max, String, ◌≡◌, refl, sym, ap, ap₂,
  ◌∙◌, subst, ◌≢◌, ◌↔◌, ◌⊎◌, inl, inr, Bool, true, false, not, ◌&&◌, ◌||◌, Option, none, some, List,
  [], ◌∷◌, ◌++◌, map, reverse, arith, ltb, leb, ◌==◌, if◌then◌else◌, within, leb→le, ltb→lt, ==_iff,
  Bool-cases, Option-cases, length, get_or, take, drop, replicate, all, any, retain, All,
  length-append, length-take, length-drop, length-replicate, length-map, All-append, Str, Bytes,
  IsByte, codes, str_eq, str_eq_iff, str_eq_refl, utf8_char, as_bytes, len, is_empty,
  is_ascii_lower, is_ascii_upper, is_ascii_digit, is_ascii_alphanumeric, is_whitespace, contains,
  trim_start, trim_end, trim, strip_prefix, starts_with, ends_with, contains_str, split, split_once,
  lines, join, ascii_lower, push_front, Result, ok, err, ◌>>=◌, ◌>>◌, ensure, ok_or, all_below,
  all_below_sound, bind-eq-ok, if-eq-ok, ensure-eq-ok, ok-injective, Result-cases,
}
use systemd_ops.Files.{Disk, join_path, is_dir, is_file, read}
use systemd_ops.Scope.Manifest.{ScopeManifest, RawFile, parse_manifest_named}

abbrev pub preferred_manifest : Str
preferred_manifest = codes ".systemd-ops/scope.toml"

abbrev pub legacy_manifest : Str
legacy_manifest = codes ".systemd-ops.toml"

-- What the code takes of `std` and of `toml`: the working directory, whether a path is absolute, the
-- parent of a path, the decoding of UTF-8, and the reader of manifests.
pub record Platform : Type 0 where
  pub current_dir : Result Str
  pub is_absolute : Str → Bool
  pub parent : Str → Option Str
  pub from_utf8 : Bytes → Result Str
  pub from_str : Str → Result RawFile

abbrev pub choose_manifest : Str → Bool → Bool → Result (Option Str)
choose_manifest root true true = err (
    codes "ambiguous scope at "
    ++ (root
        ++ (codes ": both "
            ++ (preferred_manifest ++ (codes " and " ++ (legacy_manifest ++ codes " exist"))))))
choose_manifest root true false = ok (some (join_path root preferred_manifest))
choose_manifest root false true = ok (some (join_path root legacy_manifest))
choose_manifest root false false = ok none

unfoldable pub manifest_at : Disk → Str → Result (Option Str)
manifest_at disk root =
    choose_manifest root (is_file disk (join_path root preferred_manifest))
      (is_file disk (join_path root legacy_manifest))

abbrev pub in_context {ℓ} : {A : Type ℓ} → Str → Result A → Result A
in_context context (ok a) = ok a
in_context context (err e) = err (context ++ e)

-- `fs::read_to_string`.
pub read_to_string : Platform → Disk → Str → Result Str
read_to_string p disk path = do bytes ← read disk path; p.from_utf8 bytes

pub read_manifest : Platform → Disk → Str → Str → Result ScopeManifest
read_manifest p disk root path = do
  text ← in_context (codes "cannot read " ++ (path ++ codes ": ")) (read_to_string p disk path)
  parse_manifest_named p.from_str disk text root path

pub absolute : Platform → Str → Result Str
absolute p path =
    if p.is_absolute path
    then ok path
    else (in_context (codes "cannot resolve cwd: ") p.current_dir >>= λ here.
        ok (join_path here path))

abbrev pub no_manifest : Str
no_manifest =
    preferred_manifest
    ++ (codes " or "
        ++ (legacy_manifest
            ++ codes
                " found walking up from the working directory; this is a per-project console, not an all-systemd dashboard"))

abbrev pub go_up : (Str → Result ScopeManifest) → Option Str → Result ScopeManifest
go_up next none = err (codes "no " ++ no_manifest)
go_up next (some up) = next up

-- One turn of the loop of `discover`, where `next` is the rest of the loop.
abbrev pub turn :
    Platform → Disk → Str → (Str → Result ScopeManifest) → Option Str → Result ScopeManifest
turn p disk dir next (some path) = read_manifest p disk dir path
turn p disk dir next none = go_up next (p.parent dir)

-- The loop, with a fuel of the turns that it may take.
pub climb : Platform → Disk → ℕ → Str → Result ScopeManifest
climb p disk zero dir = err (codes "no " ++ no_manifest)
climb p disk (suc fuel) dir = manifest_at disk dir >>= turn p disk dir (climb p disk fuel)

-- Each parent is shorter than its path.
pub discover_in : Platform → Disk → Str → Result ScopeManifest
discover_in p disk dir = climb p disk (suc (length dir)) dir

pub start_dir : Platform → Disk → Str → Result Str
start_dir p disk start =
    if is_dir disk start
    then ok start
    else ok_or (p.parent start) (codes "cannot discover a scope from this path")

pub discover : Platform → Disk → Str → Result ScopeManifest
discover p disk start = do
  path ← absolute p start
  dir ← start_dir p disk path
  discover_in p disk dir

pub discover_explicit : Platform → Disk → Str → Result ScopeManifest
discover_explicit p disk given = do
  root ← absolute p given
  at ← manifest_at disk root
  path ← ok_or at (
      codes "explicit scope root "
      ++ (root
          ++ (codes " contains neither "
              ++ (preferred_manifest ++ (codes " nor " ++ legacy_manifest)))))
  read_manifest p disk root path

-- `option.filter(|s| !s.is_empty())`.
abbrev pub nonempty : Option Str → Option Str
nonempty none = none
nonempty (some s) = if is_empty s then none else some s

abbrev pub from_cwd : Platform → Disk → Option Str → Result ScopeManifest
from_cwd p disk (some cwd) = discover p disk cwd
from_cwd p disk none = do
  here ← in_context (codes "cannot resolve cwd: ") p.current_dir
  discover p disk here

abbrev pub resolve_from :
    Platform → Disk → Option Str → Option Str → Option Str → Result ScopeManifest
resolve_from p disk (some root) environment cwd = discover_explicit p disk root
resolve_from p disk none (some root) cwd = discover_explicit p disk root
resolve_from p disk none none cwd = from_cwd p disk cwd

-- The explicit root before that of the environment before the working directory.
pub resolve : Platform → Disk → Option Str → Option Str → Option Str → Result ScopeManifest
unfolding discover_explicit discover
resolve p disk explicit environment cwd =
    resolve_from p disk (nonempty explicit) (nonempty environment) cwd
