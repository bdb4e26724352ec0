-- ===== src/Scope/Manifest/Laws.antt =====
-- What a manifest that src/scope.rs accepts keeps to.
use systemd_ops.Base.{
  ◌≤◌, ◌≡◌, subst, true, false, not, ◌&&◌, ◌||◌, Option, none, some, List, [], ◌∷◌, arith, leb,
  ◌==◌, drop, all, All, Str, codes, as_bytes, len, is_empty, is_ascii_lower, contains, trim,
  starts_with, Result, ok, err, ensure, ok_or, bind-eq-ok, ensure-eq-ok, ok-injective,
}
use systemd_ops.Files.{Disk, is_dir}
use systemd_ops.Scope.Manifest.{
  ScopeManifest, RawFile, is_scope_id, validate_scope_id, is_glob_text, validate_owned_glob,
  validate_stem_name, is_owned, sort, dedup, check_globs, check_critical, read_watch,
  check_agent_root, lead_of, validate_coordination_lead, check_lead, is_nil, or_empty, manifest_of,
  raw_manifest, parse_manifest_named,
}
use systemd_ops.Scope.Manifest.Sorted.{IsAscending, dedup-sort-All, dedup-sort-IsAscending}

abbrev pub IsOwnedGlob : Str → Type 0
IsOwnedGlob g = (is_empty g ≡ false) × (len g ≤ 128) × (is_glob_text g ≡ true)

-- A handle is hcom: and four lowercase letters.
abbrev pub IsLead : Option Str → Type 0
IsLead none = Unit
IsLead (some lead) =
    (starts_with (codes "hcom:") lead ≡ true)
    × (len (drop 5 lead) ≡ 4)
    × (all is_ascii_lower (as_bytes (drop 5 lead)) ≡ true)

abbrev pub IsAgentRoot : Disk → Option Str → Type 0
IsAgentRoot disk none = Unit
IsAgentRoot disk (some path) = (starts_with (codes "/") path ≡ true) × (is_dir disk path ≡ true)

-- A manifest whose parts fit: critical operations are owned, watched ones are not.
pub record IsManifest (disk : Disk) (m : ScopeManifest) : Type 0 where
  pub good_id : is_scope_id (as_bytes m.id) ≡ true
  pub some_owned : is_nil m.owned ≡ false
  pub good_owned : All IsOwnedGlob m.owned
  pub critical_owned : All (λ s. is_owned m.owned s ≡ true) m.critical
  pub critical_ascending : IsAscending m.critical
  pub watch_not_owned : All (λ s. is_owned m.owned s ≡ false) m.watch
  pub watch_ascending : IsAscending m.watch
  pub good_agent_root : IsAgentRoot disk m.automation_agent_root
  pub good_lead : IsLead m.coordination_lead

check_globs-IsOwnedGlob :
    (gs : List Str) {u : Unit {0}} → check_globs gs ≡ ok u → All IsOwnedGlob gs
unfolding check_globs validate_owned_glob
check_globs-IsOwnedGlob [] h = tt
check_globs-IsOwnedGlob (g ∷ gs) h =
    let (u, e, h1) = bind-eq-ok (validate_owned_glob g) _ h in
    (ground arith, check_globs-IsOwnedGlob gs h1)

check_critical-is_owned :
    (owned ss : List Str) {u : Unit {0}}
    → check_critical owned ss ≡ ok u
    → All (λ s. is_owned owned s ≡ true) ss
unfolding check_critical
check_critical-is_owned owned [] h = tt
check_critical-is_owned owned (s ∷ ss) h =
    let (u, e, h1) = bind-eq-ok (validate_stem_name s (codes "critical")) _ h in
    let (u2, e2, h2) = bind-eq-ok (ensure (is_owned owned s) _) _ h1 in
    (ensure-eq-ok (is_owned owned s) _ e2, check_critical-is_owned owned ss h2)

read_watch-is_owned :
    (owned : List Str) (entries : List (Option Str)) {ops : List Str}
    → read_watch owned entries ≡ ok ops
    → All (λ s. is_owned owned s ≡ false) ops
unfolding read_watch
read_watch-is_owned owned [] h = subst (All _) (ok-injective h) tt
read_watch-is_owned owned (entry ∷ rest) h =
    let (op, e, h1) = bind-eq-ok (ok_or entry _) _ h in
    let (u, e1, h2) = bind-eq-ok (validate_stem_name op (codes "watch")) _ h1 in
    let (u2, e2, h3) = bind-eq-ok (ensure (not (is_owned owned op)) _) _ h2 in
    let (ops, e3, h4) = bind-eq-ok (read_watch owned rest) _ h3 in
    let test = ensure-eq-ok (not (is_owned owned op)) _ e2 in
    subst (All _) (ok-injective h4) (ground arith, read_watch-is_owned owned rest e3)

check_agent_root-IsAgentRoot :
    (disk : Disk) (o : Option Str) {u : Unit {0}}
    → check_agent_root disk o ≡ ok u
    → IsAgentRoot disk o
unfolding check_agent_root
check_agent_root-IsAgentRoot disk none h = tt
check_agent_root-IsAgentRoot disk (some path) h = ground arith

lead_of-IsLead : (value : Str) {lead : Str} → lead_of value ≡ ok lead → IsLead (some lead)
unfolding lead_of
lead_of-IsLead value h =
    let (u, e, h1) = bind-eq-ok (ensure (not (is_empty value) && leb (len value) 128) _) _ h in
    let (u1, e1, h2) =
      bind-eq-ok (ensure (not (contains value 10 || (contains value 13 || contains value 32))) _) _
        h1 in
    let (u2, e2, h3) = bind-eq-ok (ensure (starts_with (codes "hcom:") value) _) _ h2 in
    let name = drop 5 value in
    let (u3, e3, h4) =
      bind-eq-ok (ensure (len name == 4 && all is_ascii_lower (as_bytes name)) _) _ h3 in
    let test = ensure-eq-ok (len name == 4 && all is_ascii_lower (as_bytes name)) _ e3 in
    subst (λ lead. IsLead (some lead)) (ok-injective h4)
      (ensure-eq-ok (starts_with (codes "hcom:") value) _ e2, ground arith, ground arith)

check_lead-IsLead : (o : Option Str) {lead : Option Str} → check_lead o ≡ ok lead → IsLead lead
unfolding check_lead validate_coordination_lead
check_lead-IsLead none h = subst IsLead (ok-injective h) tt
check_lead-IsLead (some value) h =
    let (lead, e, h1) = bind-eq-ok (validate_coordination_lead value) _ h in
    subst IsLead (ok-injective h1) (lead_of-IsLead (trim value) e)

validate_scope_id-is_scope_id :
    (id : Str) {u : Unit {0}} → validate_scope_id id ≡ ok u → is_scope_id (as_bytes id) ≡ true
unfolding validate_scope_id
validate_scope_id-is_scope_id id h = ensure-eq-ok (is_scope_id (as_bytes id)) _ h

manifest_of-IsManifest :
    (disk : Disk) (name root : Str) (raw : RawFile) {m : ScopeManifest}
    → manifest_of disk name root raw ≡ ok m
    → IsManifest disk m
unfolding manifest_of
manifest_of-IsManifest disk name root raw h =
    let (scope, e, h1) = bind-eq-ok (ok_or raw.scope _) _ h in
    let (id, e1, h2) = bind-eq-ok (ok_or scope.id _) _ h1 in
    let (u, e2, h3) = bind-eq-ok (validate_scope_id id) _ h2 in
    let owned = or_empty scope.owned in
    let (u1, e3, h4) = bind-eq-ok (ensure (not (is_nil owned)) _) _ h3 in
    let (u2, e4, h5) = bind-eq-ok (check_globs owned) _ h4 in
    let critical = dedup (sort (or_empty scope.critical)) in
    let (u3, e5, h6) = bind-eq-ok (check_critical owned critical) _ h5 in
    let (watch, e6, h7) = bind-eq-ok (read_watch owned (or_empty raw.watch)) _ h6 in
    let (u4, e7, h8) = bind-eq-ok (check_agent_root disk raw.agent_root) _ h7 in
    let (lead, e8, h9) = bind-eq-ok (check_lead raw.lead) _ h8 in
    let nonempty = ensure-eq-ok (not (is_nil owned)) _ e3 in
    subst (IsManifest disk) (ok-injective h9) (record {
      good_id = validate_scope_id-is_scope_id id e2;
      some_owned = ground arith;
      good_owned = check_globs-IsOwnedGlob owned e4;
      critical_owned = check_critical-is_owned owned critical e5;
      critical_ascending = dedup-sort-IsAscending (or_empty scope.critical);
      watch_not_owned = dedup-sort-All _ watch (read_watch-is_owned owned (or_empty raw.watch) e6);
      watch_ascending = dedup-sort-IsAscending watch;
      good_agent_root = check_agent_root-IsAgentRoot disk raw.agent_root e7;
      good_lead = check_lead-IsLead raw.lead e8;
    })

raw_manifest-IsManifest :
    (disk : Disk) (root name : Str) (r : Result RawFile) {m : ScopeManifest}
    → raw_manifest disk root name r ≡ ok m
    → IsManifest disk m
raw_manifest-IsManifest disk root name (ok raw) h = manifest_of-IsManifest disk name root raw h
raw_manifest-IsManifest disk root name (err e) h = cc

-- Whatever the text of a manifest is read as, a manifest that is accepted has a valid identifier and
-- at least one glob of owned operations, all valid; its critical operations are owned and its
-- watched ones are not, both listed in ascending order without repetition; an agent root is an
-- absolute path of a directory, and a lead is hcom: with four lowercase letters.
pub parse_manifest_named-IsManifest :
    (from_str : Str → Result RawFile) (disk : Disk) (text root name : Str) {m : ScopeManifest}
    → parse_manifest_named from_str disk text root name ≡ ok m
    → IsManifest disk m
unfolding parse_manifest_named
parse_manifest_named-IsManifest from_str disk text root name h =
    raw_manifest-IsManifest disk root name (from_str text) h
