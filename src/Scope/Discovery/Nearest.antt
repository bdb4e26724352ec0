-- ===== src/Scope/Discovery/Nearest.antt =====
-- Which manifest src/scope.rs finds.
use systemd_ops.Base.{
  ℕ, zero, suc, ◌<◌, ◌≡◌, refl, true, none, some, ◌++◌, arith, length, Str, codes, ok, err,
}
use systemd_ops.Files.{Disk, is_dir}
use systemd_ops.Scope.Discovery.{
  Platform, manifest_at, read_manifest, absolute, no_manifest, climb, discover_in, start_dir,
  discover,
}

-- From a directory up, the first one with a manifest, and the manifest's path.
pub data Nearest (p : Platform) (disk : Disk) : Str → Str → Str → Type 0 where
  here : (dir path : Str) → manifest_at disk dir ≡ ok (some path) → Nearest p disk dir dir path
  above :
      (dir up found path : Str)
      → manifest_at disk dir ≡ ok none
      → p.parent dir ≡ some up
      → Nearest p disk up found path
      → Nearest p disk dir found path

-- Neither a directory nor any above it has a manifest.
pub data Nowhere (p : Platform) (disk : Disk) : Str → Type 0 where
  top : (dir : Str) → manifest_at disk dir ≡ ok none → p.parent dir ≡ none → Nowhere p disk dir
  below :
      (dir up : Str)
      → manifest_at disk dir ≡ ok none
      → p.parent dir ≡ some up
      → Nowhere p disk up
      → Nowhere p disk dir

-- A parent is shorter than its path.
abbrev pub ParentIsShorter : Platform → Type 0
ParentIsShorter p = (dir up : Str) → p.parent dir ≡ some up → length up < length dir

climb-Nearest :
    (p : Platform) (disk : Disk) (fuel : ℕ) {dir found path : Str}
    → ParentIsShorter p
    → length dir < fuel
    → Nearest p disk dir found path
    → climb p disk fuel dir ≡ read_manifest p disk found path
unfolding climb
climb-Nearest p disk zero s n h = absurd (omega arith)
climb-Nearest p disk (suc fuel) s n (here dir path e) = rw e refl
climb-Nearest p disk (suc fuel) s n (above dir up found path e u h) =
    let shorter = s dir up u in
    let rest = climb-Nearest p disk fuel s (omega arith) h in rw (e, u) rest

climb-Nowhere :
    (p : Platform) (disk : Disk) (fuel : ℕ) {dir : Str}
    → ParentIsShorter p
    → length dir < fuel
    → Nowhere p disk dir
    → climb p disk fuel dir ≡ err (codes "no " ++ no_manifest)
unfolding climb
climb-Nowhere p disk zero s n h = refl
climb-Nowhere p disk (suc fuel) s n (top dir e u) = rw (e, u) refl
climb-Nowhere p disk (suc fuel) s n (below dir up e u h) =
    let shorter = s dir up u in
    let rest = climb-Nowhere p disk fuel s (omega arith) h in rw (e, u) rest

-- From an absolute path of a directory, where the path of a parent is shorter, the manifest of the
-- nearest directory that has one is read, whatever stands further up.
pub discover-Nearest :
    (p : Platform) (disk : Disk) {dir found path : Str}
    → ParentIsShorter p
    → p.is_absolute dir ≡ true
    → is_dir disk dir ≡ true
    → Nearest p disk dir found path
    → discover p disk dir ≡ read_manifest p disk found path
unfolding discover absolute start_dir discover_in
discover-Nearest p disk {dir} s a d h =
    rw (a, d) (climb-Nearest p disk (suc (length dir)) s (omega arith) h)

-- From an absolute path of a directory, where the path of a parent is shorter, an error tells that
-- no directory up to the root has a manifest, if this is so.
pub discover-Nowhere :
    (p : Platform) (disk : Disk) {dir : Str}
    → ParentIsShorter p
    → p.is_absolute dir ≡ true
    → is_dir disk dir ≡ true
    → Nowhere p disk dir
    → discover p disk dir ≡ err (codes "no " ++ no_manifest)
unfolding discover absolute start_dir discover_in
discover-Nowhere p disk {dir} s a d h =
    rw (a, d) (climb-Nowhere p disk (suc (length dir)) s (omega arith) h)
