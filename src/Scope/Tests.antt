-- ===== src/Scope/Tests.antt =====
-- A scope with a manifest that is found, and its view.
use systemd_ops.Base.{
  ◌≡◌, refl, ap, ◌⊎◌, true, Option, none, some, List, [], ◌∷◌, ◌++◌, arith, if◌then◌else◌, length,
  Str, codes, str_eq, utf8_char, as_bytes, len, is_whitespace, contains, trim_start, trim_end, trim,
  starts_with, ends_with, Result, ok,
}
use mathlib.Core.List.{Memᴰ}
use systemd_ops.Json.{Value, null, str, object}
use systemd_ops.Files.{Disk, Node, file, directory, is_dir, is_file}
use systemd_ops.Operator.Surface.{missing}
use systemd_ops.Scope.{healthy, rank, worst}
use systemd_ops.Scope.Manifest.{
  ScopeManifest, RawFile, parse_manifest_named, manifest_of, is_scope_id, validate_scope_id,
  validate_owned_glob, is_glob_text, validate_stem_name, glob_matches_stem, is_owned, text_ltb,
  insert_sorted, sort, skip_equal, dedup, check_globs, check_critical, read_watch, check_agent_root,
  lead_of, validate_coordination_lead, check_lead,
}
use systemd_ops.Scope.Manifest.Laws.{IsManifest, parse_manifest_named-IsManifest}
use systemd_ops.Scope.Discovery.{Platform, manifest_at, read_manifest, discover}
use systemd_ops.Scope.Discovery.Nearest.{Nearest, here, above, ParentIsShorter, discover-Nearest}
use systemd_ops.Scope.View.{Attention, Joins}
use systemd_ops.Scope.Aggregate.{aggregate}
use systemd_ops.Scope.Aggregate.Explained.{Explains, aggregate-Explains}
use systemd_ops.Scope.Aggregate.Laws.{
  owned_raises, watching_raises, raises, KeepsSome, aggregate-rank,
}

-- A manifest with a critical operation that is owned, and a watched one that is not.
abbrev raw : RawFile
raw = record {
  scope = some (record {
    id = some (codes "web-1");
    owned = some (codes "web-*" ∷ []);
    critical = some (codes "web-b" ∷ codes "web-a" ∷ codes "web-b" ∷ []);
  });
  agent_root = some (codes "/r");
  lead = some (codes " hcom:abcd");
  watch = some (some (codes "db") ∷ []);
}

abbrev from_str : Str → Result RawFile
from_str text = ok raw

-- A disk with the directory /r, and a manifest in the root.
abbrev nodes : Str → Option Node
nodes path =
    if str_eq path (codes "/r")
    then some directory
    else if str_eq path (codes "/.systemd-ops/scope.toml")
    then some (file (codes "[scope]"))
    else none

abbrev disk : Disk
disk = record {
  nodes = nodes;
  locate = λ n p. p;
  follow = λ n p. p;
  read_faults = λ n p. none;
  write_faults = λ n p. none;
}

abbrev manifest : ScopeManifest
manifest = record {
  id = codes "web-1";
  root = codes "/";
  owned = codes "web-*" ∷ [];
  critical = codes "web-a" ∷ codes "web-b" ∷ [];
  watch = codes "db" ∷ [];
  automation_agent_root = some (codes "/r");
  coordination_lead = some (codes "hcom:abcd");
}

parsed : parse_manifest_named from_str disk (codes "[scope]") (codes "/") (codes "m") ≡ ok manifest
unfolding parse_manifest_named manifest_of validate_scope_id is_scope_id as_bytes check_globs
    validate_owned_glob len is_glob_text contains check_critical dedup sort insert_sorted text_ltb
    validate_stem_name systemd_ops.Systemd.Names.validate_unit_name is_owned glob_matches_stem
    is_whitespace starts_with str_eq trim trim_end trim_start utf8_char is_dir check_agent_root
    check_lead lead_of read_watch skip_equal validate_coordination_lead
    systemd_ops.Systemd.Glob.glob_match systemd_ops.Systemd.Names.is_valid_unit_name
parsed = refl

parse_manifest_named-IsManifest_example : IsManifest disk manifest
parse_manifest_named-IsManifest_example =
    parse_manifest_named-IsManifest from_str disk (codes "[scope]") (codes "/") (codes "m") parsed

-- /r has no manifest, and its parent the root has one.
abbrev parent : Str → Option Str
parent (c ∷ d ∷ path) = some (codes "/")
parent _ = none

abbrev platform : Platform
platform = record {
  current_dir = ok (codes "/r");
  is_absolute = starts_with (codes "/");
  parent = parent;
  from_utf8 = λ b. ok b;
  from_str = from_str;
}

some-injective {ℓ} : {A : Type ℓ} {a b : A} → some a ≡ some b → a ≡ b
some-injective h = cc

parent-length : ParentIsShorter platform
parent-length [] up e = cc
parent-length (c ∷ []) up e = cc
parent-length (c ∷ d ∷ path) up e = ground (arith, ap length (some-injective e))

is_absolute_r : platform.is_absolute (codes "/r") ≡ true
unfolding starts_with
is_absolute_r = refl

is_dir_r : is_dir disk (codes "/r") ≡ true
unfolding is_dir str_eq
is_dir_r = refl

found : Nearest platform disk (codes "/r") (codes "/") (codes "/.systemd-ops/scope.toml")
unfolding manifest_at is_file str_eq ends_with
found = above (codes "/r") (codes "/") _ _ refl refl (here _ _ refl)

discover-Nearest_example :
    discover platform disk (codes "/r")
    ≡ read_manifest platform disk (codes "/") (codes "/.systemd-ops/scope.toml")
discover-Nearest_example = discover-Nearest platform disk parent-length is_absolute_r is_dir_r found

-- A critical operation that failed, and a timer that never ran.
abbrev views : List Value
views =
    object ((codes "unit", str (codes "web-a")) ∷ (codes "state", str (codes "failed")) ∷ [])
    ∷ object ((codes "unit", str (codes "web-c")) ∷ (codes "kind", str (codes "oneshot")) ∷ [])
    ∷ []

abbrev joins : Joins
joins = record {
  join_operation = λ unit. (null, none);
  attach_inspect_surfaces = λ unit active automation. automation;
  operation_home = λ unit. codes "/home/" ++ unit;
  join_for_scope = λ unit revision. (null, missing, none);
  derive_semantic_states = λ l. l;
  attach_relations = λ l. l;
}

joins-KeepsSome : KeepsSome joins
joins-KeepsSome l = refl

aggregate-rank_example :
    rank (aggregate manifest joins views []).health
    ≡ worst 0 (raises (owned_raises manifest joins) views ++ raises watching_raises [])
aggregate-rank_example = aggregate-rank manifest joins views [] joins-KeepsSome refl

aggregate-Explains_example :
    ((aggregate manifest joins views []).health ≡ healthy)
    ⊎ ((a : Attention) × Memᴰ a (aggregate manifest joins views []).attention
        × Explains manifest joins views [] (aggregate manifest joins views []).health a)
aggregate-Explains_example = aggregate-Explains manifest joins views [] joins-KeepsSome refl
