-- ===== src/Operator/Store.antt =====
-- The files of a surface in src/operator.rs, under the home of an operation.
use systemd_ops.Base.{
  Bool, true, false, not, ◌||◌, Option, none, some, List, [], ◌∷◌, ◌++◌, if◌then◌else◌, Str, Bytes,
  codes, is_empty, contains, Result, ok, err, ensure,
}
use systemd_ops.Base.Steps.{◌>>=◌, ◌>>◌, give}
use systemd_ops.Files.{
  Disk, OnDisk, join_path, exists, is_symlink, read, create_dir, create_new, rename, remove_file,
}
use systemd_ops.Json.{Value}
use systemd_ops.Operator.Surface.{
  OperatorSurface, OperatorLoad, absent, ready, malformed, surface_json,
}
use systemd_ops.Operator.Parse.{parse_surface}
use systemd_ops.Scope.Manifest.{ScopeManifest, is_owned}
use systemd_ops.Systemd.Names.{validate_unit_name}

-- What the code relies on: JSON, whose print of a value does not fail, the print of a list, and the
-- number of the process.
pub record Desk : Type 0 where
  pub from_slice : Bytes → Result Value
  pub to_vec_pretty : Value → Bytes
  pub print_list : List Str → Str
  pub pid : Str

-- `a?; b`.
abbrev pub both : Result (Unit {0}) → Result (Unit {0}) → Result (Unit {0})
both (ok u) r = r
both (err e) r = err e

unfoldable pub validate_stem : Str → Result (Unit {0})
validate_stem stem =
    both
      (ensure (not (is_empty stem || (contains stem b'/' || contains stem b'.')))
        (codes "operator unit must be a bare stem without suffix; got '" ++ (stem ++ codes "'")))
      (validate_unit_name (stem ++ codes ".service"))

pub require_owned : Desk → ScopeManifest → Str → Result (Unit {0})
require_owned desk manifest stem = both (validate_stem stem) (
    ensure (is_owned manifest.owned stem) (
      codes "operator writes are restricted to owned stems matching "
      ++ (desk.print_list manifest.owned ++ (codes "; refused '" ++ (stem ++ codes "'")))))

abbrev pub dir_name : Str
dir_name = codes ".systemd-ops"

pub preferred_operation_home : Str → Str → Str
preferred_operation_home root stem =
    join_path (join_path (join_path root dir_name) (codes "operations")) stem

pub legacy_operation_home : Str → Str → Str
legacy_operation_home root stem = join_path (join_path root dir_name) stem

abbrev pub choose_home : Str → Str → Str → Bool → Bool → Result Str
choose_home stem preferred legacy true true = err (
    codes "ambiguous operation home for '"
    ++ (stem ++ (codes "': both " ++ (preferred ++ (codes " and " ++ (legacy ++ codes " exist"))))))
choose_home stem preferred legacy true false = ok preferred
choose_home stem preferred legacy false true = ok legacy
choose_home stem preferred legacy false false = ok preferred

pub operation_home_checked : Disk → Str → Str → Result Str
operation_home_checked disk root stem =
    let preferred = preferred_operation_home root stem in
    let legacy = legacy_operation_home root stem in
    choose_home stem preferred legacy (exists disk preferred) (exists disk legacy)

abbrev pub home_or : Str → Result Str → Str
home_or preferred (ok home) = home
home_or preferred (err e) = preferred

pub operation_home : Disk → Str → Str → Str
operation_home disk root stem =
    home_or (preferred_operation_home root stem) (operation_home_checked disk root stem)

pub operator_dir : Disk → Str → Str → Str
operator_dir disk root stem = join_path (operation_home disk root stem) (codes "state")

pub operator_path : Disk → Str → Str → Str
operator_path disk root stem = join_path (operator_dir disk root stem) (codes "operator.json")

pub legacy_operator_path : Str → Str → Str
legacy_operator_path root stem =
    join_path (join_path (join_path root dir_name) (codes "operator")) (stem ++ codes ".json")

abbrev pub wins_over : Str → Str → Bool → Option Str
wins_over canonical legacy true =
    some
      (codes "canonical operator state " ++ (canonical ++ (codes " wins over legacy " ++ legacy)))
wins_over canonical legacy false = none

abbrev pub select : Disk → Str → Str → Result Str → Result (Str × Option Str)
select disk root stem (err e) = err e
select disk root stem (ok home) =
    let canonical = join_path home (codes "state/operator.json") in
    let legacy = legacy_operator_path root stem in
    if exists disk canonical
    then ok (canonical, wins_over canonical legacy (exists disk legacy))
    else ok (legacy, none)

pub selected_path : Disk → Str → Str → Result (Str × Option Str)
selected_path disk root stem = select disk root stem (operation_home_checked disk root stem)

abbrev pub parsed : Result OperatorSurface → OperatorLoad
parsed (ok s) = ready s
parsed (err e) = malformed e

abbrev pub load_bytes : Desk → Str → Result Bytes → OperatorLoad
load_bytes desk path (ok bytes) = parsed (parse_surface desk.from_slice bytes)
load_bytes desk path (err e) = malformed (codes "cannot read " ++ (path ++ (codes ": " ++ e)))

abbrev pub load_selected : Desk → Disk → Result (Str × Option Str) → OperatorLoad × Option Str
load_selected desk disk (err e) = (malformed e, none)
load_selected desk disk (ok (path, warning)) =
    if exists disk path then (load_bytes desk path (read disk path), warning) else (absent, warning)

pub load_with_warning : Desk → Disk → Str → Str → OperatorLoad × Option Str
load_with_warning desk disk root stem = load_selected desk disk (selected_path disk root stem)

unfoldable pub refuse_symlink : Str → OnDisk (Unit {0})
refuse_symlink path disk =
    (ensure (not (is_symlink disk path)) (codes "refusing to write through symlink " ++ path), disk)

abbrev pub explained : Str → Result (Unit {0}) × Disk → Result (Unit {0}) × Disk
explained message (ok u, disk) = (ok u, disk)
explained message (err e, disk) = (err (message ++ e), disk)

abbrev pub make_missing : Bool → Str → OnDisk (Unit {0})
make_missing true path = give (ok tt)
make_missing false path =
    λ disk. explained (codes "mkdir " ++ (path ++ codes ": ")) (create_dir path disk)

pub ensure_dir : Str → OnDisk (Unit {0})
ensure_dir path = do refuse_symlink path; λ disk. make_missing (exists disk path) path disk

pub ensure_dirs : Str → Str → OnDisk Str
ensure_dirs root stem = do
  ensure_dir (join_path root dir_name)
  ensure_dir (join_path (join_path root dir_name) (codes "operations"))
  home ← λ disk. (operation_home_checked disk root stem, disk)
  ensure_dir home
  ensure_dir (join_path home (codes "state"))
  give (ok (join_path home (codes "state")))

abbrev pub or_remove : Str → Result (Unit {0}) × Disk → Result (Unit {0}) × Disk
or_remove tmp (ok u, disk) = (ok u, disk)
or_remove tmp (err e, disk) = (err e, (remove_file tmp disk).1)

-- `atomic_write` at a path whose directory is given beside it. A file that is created is written in
-- full.
unfoldable pub atomic_write : Desk → Str → Str → OperatorSurface → OnDisk (Unit {0})
atomic_write desk dir path surface = do
  let tmp = join_path dir (codes ".operator.json.tmp." ++ desk.pid)
  refuse_symlink path
  λ disk.
      explained (codes "create " ++ (tmp ++ codes ": "))
        (create_new tmp (desk.to_vec_pretty (surface_json surface) ++ 10 ∷ []) disk)
  λ disk.
      explained (codes "rename into " ++ (path ++ codes ": "))
        (or_remove tmp (rename tmp path disk))

abbrev pub remove_migrated : Bool → Str → OnDisk (Unit {0})
remove_migrated false path = give (ok tt)
remove_migrated true path =
    λ disk. explained (codes "remove migrated " ++ (path ++ codes ": ")) (remove_file path disk)

pub finish_write : Desk → Str → Str → OperatorSurface → OnDisk (Unit {0})
finish_write desk root stem surface = do
  _ ← ensure_dirs root stem
  dir ← λ disk. (ok (operator_dir disk root stem), disk)
  let canonical = join_path dir (codes "operator.json")
  refuse_symlink canonical
  refuse_symlink (legacy_operator_path root stem)
  atomic_write desk dir canonical surface
  λ disk.
      remove_migrated (exists disk (legacy_operator_path root stem))
        (legacy_operator_path root stem) disk
