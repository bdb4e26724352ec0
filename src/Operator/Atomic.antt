-- ===== src/Operator/Atomic.antt =====
-- The writing of the surface's file in src/operator.rs is atomic.
use systemd_ops.Base.{
  ◌≡◌, ◌⊎◌, false, Option, none, some, [], ◌∷◌, ◌++◌, Str, Bytes, codes, str_eq, Result, ok, err,
  if◌then◌else◌,
}
use systemd_ops.Files.{Disk, Node, Nodes, file, join_path, place, is_symlink}
use systemd_ops.Operator.Surface.{OperatorSurface, surface_json}
use systemd_ops.Operator.Store.{Desk}

-- What stands where, with a new file.
abbrev pub with_file : Nodes → Str → Bytes → Nodes
with_file nodes at bytes p = if str_eq p at then some (file bytes) else nodes p

-- A file that is made where nothing was leads no path elsewhere.
abbrev pub FilesLeadNowhere : (Nodes → Str → Str) → Type 0
FilesLeadNowhere locate =
    (nodes : Nodes) (at : Str) (bytes : Bytes) (p : Str)
    → nodes at ≡ none
    → locate (with_file nodes at bytes) p ≡ locate nodes p

-- All of the new content, through no link, or what was there before.
abbrev pub IsAtomic : Disk → Str → Bytes → Result (Unit {0}) × Disk → Type 0
IsAtomic disk path bytes r =
    ((r.0 ≡ ok tt)
      × (is_symlink disk path ≡ false)
      × (r.1.nodes (place disk path) ≡ some (file bytes)))
    ⊎ ((e : Str) × (r.0 ≡ err e) × (r.1.nodes (place disk path) ≡ disk.nodes (place disk path)))

-- The same of the renaming of a file that was written.
abbrev IsReplaced : Str → Option Node → Bytes → Result (Unit {0}) × Disk → Type 0
IsReplaced at old bytes r =
    ((r.0 ≡ ok tt) × (r.1.nodes at ≡ some (file bytes)))
    ⊎ ((e : Str) × (r.0 ≡ err e) × (r.1.nodes at ≡ old))

abbrev pub new_content : Desk → OperatorSurface → Bytes
new_content desk surface = desk.to_vec_pretty (surface_json surface) ++ 10 ∷ []

abbrev pub temporary_path : Desk → Str → Str
temporary_path desk dir = join_path dir (codes ".operator.json.tmp." ++ desk.pid)
