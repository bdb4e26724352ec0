-- ===== src/Scope/Manifest.antt =====
-- The manifest of a scope in src/scope.rs: its validation, from what `toml` reads.
pub mod Sorted
pub mod Laws
use systemd_ops.Base.{
  ℕ, Bool, true, false, not, ◌&&◌, ◌||◌, Option, none, some, List, [], ◌∷◌, ◌++◌, ltb, leb, ◌==◌,
  if◌then◌else◌, length, drop, all, any, Str, Bytes, codes, str_eq, as_bytes, len, is_empty,
  is_ascii_lower, is_ascii_digit, contains, trim, starts_with, Result, ok, err, ◌>>=◌, ◌>>◌, ensure,
  ok_or,
}
use systemd_ops.Files.{Disk, is_dir}
use systemd_ops.Systemd.Glob.{glob_match}
use systemd_ops.Systemd.Names.{validate_unit_name}

pub record ScopeManifest : Type 0 where
  pub id : Str
  pub root : Str
  pub owned : List Str
  pub critical : List Str
  pub watch : List Str
  pub automation_agent_root : Option Str
  pub coordination_lead : Option Str

-- `RawScope` and `RawFile`, as `toml::from_str` builds them. Of `[automation]`, `[coordination]` and
-- each `[[watch]]` it is the one field that they have.
pub record RawScope : Type 0 where
  pub id : Option Str
  pub owned : Option (List Str)
  pub critical : Option (List Str)

pub record RawFile : Type 0 where
  pub scope : Option RawScope
  pub agent_root : Option Str
  pub lead : Option Str
  pub watch : Option (List (Option Str))

abbrev pub is_id_char : ℕ → Bool
is_id_char b = is_ascii_lower b || (is_ascii_digit b || b == b'-')

unfoldable pub is_scope_id : Bytes → Bool
is_scope_id [] = false
is_scope_id (b ∷ bs) = leb (length (b ∷ bs)) 64 && (is_ascii_lower b && all is_id_char (b ∷ bs))

unfoldable pub validate_scope_id : Str → Result (Unit {0})
validate_scope_id id =
    ensure (is_scope_id (as_bytes id))
      (codes "scope.id '" ++ (id ++ codes "' must be 1..64 characters matching [a-z][a-z0-9-]*"))

unfoldable pub is_glob_text : Str → Bool
is_glob_text g = not (contains g 10) && (not (contains g 0) && not (contains g b','))

unfoldable pub validate_owned_glob : Str → Result (Unit {0})
validate_owned_glob g = do
  ensure (not (is_empty g) && leb (len g) 128) (codes "scope.owned glob must be 1..128 characters")
  ensure (is_glob_text g)
      (codes "malformed owned glob '" ++ (g ++ codes "': commas and newlines are not allowed"))

-- `map_err(|e| format!("{label} operation '{stem}': {e}"))`.
abbrev pub label_error : Str → Str → Result (Unit {0}) → Result (Unit {0})
label_error label stem (ok u) = ok u
label_error label stem (err e) =
    err (label ++ (codes " operation '" ++ (stem ++ (codes "': " ++ e))))

unfoldable pub validate_stem_name : Str → Str → Result (Unit {0})
validate_stem_name stem label = do
  ensure (not (is_empty stem) && leb (len stem) 256)
      (label ++ codes " operation stem must be 1..256 characters")
  ensure (not (contains stem b'.'))
      (label ++ (codes " operation '" ++ (stem ++ codes "' must be a stem without a unit suffix")))
  label_error label stem (validate_unit_name (stem ++ codes ".service"))

unfoldable pub glob_matches_stem : Str → Str → Bool
glob_matches_stem glob stem = glob_match glob stem || glob_match glob (stem ++ codes ".service")

-- Some owned glob matches the stem.
unfoldable pub is_owned : List Str → Str → Bool
is_owned owned stem = any (λ g. glob_matches_stem g stem) owned

-- The order of texts, which is that of their bytes.
unfoldable pub text_ltb : Str → Str → Bool
text_ltb [] [] = false
text_ltb [] (d ∷ t) = true
text_ltb (c ∷ s) [] = false
text_ltb (c ∷ s) (d ∷ t) = let rest = text_ltb s t in if c == d then rest else ltb c d

unfoldable pub insert_sorted : Str → List Str → List Str
insert_sorted s [] = s ∷ []
insert_sorted s (t ∷ ts) =
    let rest = insert_sorted s ts in if text_ltb t s then t ∷ rest else s ∷ t ∷ ts

-- `sort()` and `dedup()`.
unfoldable pub sort : List Str → List Str
sort [] = []
sort (s ∷ ss) = insert_sorted s (sort ss)

unfoldable pub skip_equal : Str → List Str → List Str
skip_equal s [] = []
skip_equal s (t ∷ ts) = let rest = skip_equal t ts in if str_eq t s then rest else t ∷ rest

unfoldable pub dedup : List Str → List Str
dedup [] = []
dedup (s ∷ ss) = s ∷ skip_equal s ss

unfoldable pub check_globs : List Str → Result (Unit {0})
check_globs [] = ok tt
check_globs (g ∷ gs) = do validate_owned_glob g; check_globs gs

unfoldable pub check_critical : List Str → List Str → Result (Unit {0})
check_critical owned [] = ok tt
check_critical owned (stem ∷ rest) = do
  validate_stem_name stem (codes "critical")
  ensure (is_owned owned stem)
      (codes "critical operation '" ++ (stem ++ codes "' is not matched by scope.owned"))
  check_critical owned rest

unfoldable pub read_watch : List Str → List (Option Str) → Result (List Str)
read_watch owned [] = ok []
read_watch owned (entry ∷ rest) = do
  op ← ok_or entry (codes "[[watch]] entry is missing operation")
  validate_stem_name op (codes "watch")
  ensure (not (is_owned owned op))
      (codes "operation '" ++ (op ++ codes "' cannot be both owned and watched"))
  ops ← read_watch owned rest
  ok (op ∷ ops)

unfoldable pub check_agent_root : Disk → Option Str → Result (Unit {0})
check_agent_root disk none = ok tt
check_agent_root disk (some path) = do
  ensure (starts_with (codes "/") path) (codes "automation.agent_root must be an absolute path")
  ensure (is_dir disk path)
      (codes "automation.agent_root '" ++ (path ++ codes "' is not a directory"))

unfoldable pub lead_of : Str → Result Str
lead_of value = do
  ensure (not (is_empty value) && leb (len value) 128)
      (codes "coordination.lead must be 1..128 characters")
  ensure (not (contains value 10 || (contains value 13 || contains value 32)))
      (codes "coordination.lead must be a single token")
  ensure (starts_with (codes "hcom:") value)
      (codes "coordination.lead must be an opaque hcom:<name> handle")
  ensure (len (drop 5 value) == 4 && all is_ascii_lower (as_bytes (drop 5 value)))
      (codes "coordination.lead must be hcom: plus a four-letter lowercase name")
  ok value

unfoldable pub validate_coordination_lead : Str → Result Str
validate_coordination_lead value = lead_of (trim value)

unfoldable pub check_lead : Option Str → Result (Option Str)
check_lead none = ok none
check_lead (some value) = do lead ← validate_coordination_lead value; ok (some lead)

abbrev pub is_nil {ℓ} : {A : Type ℓ} → List A → Bool
is_nil [] = true
is_nil (a ∷ as') = false

abbrev pub or_empty {ℓ} : {A : Type ℓ} → Option (List A) → List A
or_empty none = []
or_empty (some l) = l

unfoldable pub manifest_of : Disk → Str → Str → RawFile → Result ScopeManifest
manifest_of disk name root raw = do
  scope ← ok_or raw.scope (name ++ codes " is missing [scope]")
  id ← ok_or scope.id (name ++ codes " is missing scope.id")
  validate_scope_id id
  let owned = or_empty scope.owned
  ensure (not (is_nil owned)) (codes "scope.owned must list at least one operation glob")
  check_globs owned
  let critical = dedup (sort (or_empty scope.critical))
  check_critical owned critical
  watch ← read_watch owned (or_empty raw.watch)
  check_agent_root disk raw.agent_root
  lead ← check_lead raw.lead
  ok (record {
    id = id;
    root = root;
    owned = owned;
    critical = critical;
    watch = dedup (sort watch);
    automation_agent_root = raw.agent_root;
    coordination_lead = lead;
  })

abbrev pub raw_manifest : Disk → Str → Str → Result RawFile → Result ScopeManifest
raw_manifest disk root name (ok raw) = manifest_of disk name root raw
raw_manifest disk root name (err e) = err (codes "malformed " ++ (name ++ (codes ": " ++ e)))

-- `toml::from_str` is a parameter, with its message on a failure.
unfoldable pub parse_manifest_named :
    (Str → Result RawFile) → Disk → Str → Str → Str → Result ScopeManifest
unfolding manifest_of
parse_manifest_named from_str disk text root name = raw_manifest disk root name (from_str text)
