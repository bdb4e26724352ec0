-- ===== src/Files.antt =====
-- The files that the code reads and writes, by `std::fs`. What stands where is told by the place of
-- an entry: its path without a link on the way, `.` or `..`. What place a path names, and what the
-- system refuses besides, depends on what stands where and is a parameter: `locate` follows the links
-- on the way to the last name, as `lstat` does, and `follow` that of the last name too, as `stat`
-- does, up to a loop of links. Permissions are left out, whose changes the code does not depend on.
use systemd_ops.Base.{
  ℕ, zero, suc, Bool, true, false, Option, none, some, ◌∷◌, ◌++◌, if◌then◌else◌, ◌||◌, is_empty,
  ends_with, Str, Bytes, codes, str_eq, Result, ok, err,
}
use systemd_ops.Base.Steps.{StepOf}

-- A symbolic link holds the path that it leads to.
pub data Node : Type 0 where
  file : Bytes → Node
  directory : Node
  link : Str → Node

abbrev pub Nodes : Type 0
Nodes = Str → Option Node

pub record Disk : Type 0 where
  pub nodes : Nodes
  pub locate : Nodes → Str → Str
  pub follow : Nodes → Str → Str
  pub read_faults : Nodes → Str → Option Str
  pub write_faults : Nodes → Str → Option Str

abbrev pub OnDisk {ℓ} : Type ℓ → Type ℓ
OnDisk A = StepOf Disk A

-- `path.join(name)` of a relative name.
abbrev pub join_path : Str → Str → Str
join_path dir name =
    if is_empty dir || ends_with (codes "/") dir then dir ++ name else dir ++ (b'/' ∷ name)

-- The place that a path names, and the one that its last link leads to.
abbrev pub place : Disk → Str → Str
place disk path = disk.locate disk.nodes path

abbrev pub target : Disk → Str → Str
target disk path = disk.follow disk.nodes path

-- What `symlink_metadata` and `metadata` find.
abbrev pub entry : Disk → Str → Option Node
entry disk path = disk.nodes (place disk path)

abbrev pub behind : Disk → Str → Option Node
behind disk path = disk.nodes (target disk path)

-- A link is found behind a path only in a loop.
abbrev pub node_exists : Option Node → Bool
node_exists none = false
node_exists (some (link to)) = false
node_exists (some _) = true

-- `path.exists()`, which follows a link.
pub exists : Disk → Str → Bool
exists disk path = node_exists (behind disk path)

abbrev pub node_is_link : Option Node → Bool
node_is_link (some (link to)) = true
node_is_link _ = false

pub is_symlink : Disk → Str → Bool
is_symlink disk path = node_is_link (entry disk path)

abbrev pub node_is_dir : Option Node → Bool
node_is_dir (some directory) = true
node_is_dir _ = false

unfoldable pub is_dir : Disk → Str → Bool
is_dir disk path = node_is_dir (behind disk path)

abbrev pub node_is_file : Option Node → Bool
node_is_file (some (file bytes)) = true
node_is_file _ = false

unfoldable pub is_file : Disk → Str → Bool
is_file disk path = node_is_file (behind disk path)

abbrev pub no_file : Str
no_file = codes "No such file or directory (os error 2)"

abbrev pub is_a_directory : Str
is_a_directory = codes "Is a directory (os error 21)"

abbrev pub too_many_links : Str
too_many_links = codes "Too many levels of symbolic links (os error 40)"

abbrev pub read_node : Option Node → Result Bytes
read_node none = err no_file
read_node (some (file bytes)) = ok bytes
read_node (some directory) = err is_a_directory
read_node (some (link to)) = err too_many_links

abbrev pub metadata_node : Option Node → Result Node
metadata_node none = err no_file
metadata_node (some (link to)) = err too_many_links
metadata_node (some node) = ok node

abbrev pub unless_fault {ℓ} : {A : Type ℓ} → Option Str → Result A → Result A
unless_fault none r = r
unless_fault (some e) r = err e

-- `fs::metadata`.
unfoldable pub metadata : Disk → Str → Result Node
metadata disk path = metadata_node (behind disk path)

-- `fs::read`.
pub read : Disk → Str → Result Bytes
read disk path = unless_fault (disk.read_faults disk.nodes path) (read_node (behind disk path))

unfoldable pub set_node : Str → Option Node → Disk → Disk
set_node at node disk = record disk { nodes = λ p. if str_eq p at then node else disk.nodes p }

abbrev pub change : Option Str → Disk → Disk → Result (Unit {0}) × Disk
change none disk disk' = (ok tt, disk')
change (some e) disk disk' = (err e, disk)

abbrev pub refused : Disk → Str → Option Str
refused disk path = disk.write_faults disk.nodes path

abbrev pub create_fault : Option Node → Option Str → Option Str
create_fault none fault = fault
create_fault (some node) fault = some (codes "File exists (os error 17)")

-- `fs::create_dir`.
pub create_dir : Str → OnDisk (Unit {0})
unfolding set_node
create_dir path disk =
    change (create_fault (entry disk path) (refused disk path)) disk
      (set_node (place disk path) (some directory) disk)

abbrev pub then_create : Str → Result (Unit {0}) × Disk → Result (Unit {0}) × Disk
then_create path (ok u, disk) = create_dir path disk
then_create path (err e, disk) = (err e, disk)

abbrev pub create_above : (Str → OnDisk (Unit {0})) → Option Str → OnDisk (Unit {0})
create_above create none disk = (ok tt, disk)
create_above create (some up) disk = create up disk

-- `fs::create_dir_all`, which makes what is missing above a directory too; the depth of a path is
-- less than its length.
pub create_dir_all : (Str → Option Str) → ℕ → Str → OnDisk (Unit {0})
create_dir_all parent zero path disk = (ok tt, disk)
create_dir_all parent (suc depth) path disk =
    if is_dir disk path
    then (ok tt, disk)
    else then_create path (create_above (create_dir_all parent depth) (parent path) disk)

abbrev pub write_fault : Option Node → Option Str → Option Str
write_fault (some directory) fault = some is_a_directory
write_fault (some (link to)) fault = some too_many_links
write_fault _ fault = fault

-- `fs::write`, which writes what a link leads to.
pub write : Str → Bytes → OnDisk (Unit {0})
unfolding set_node
write path bytes disk =
    change (write_fault (behind disk path) (refused disk path)) disk
      (set_node (target disk path) (some (file bytes)) disk)

-- A file that is opened with `create_new(true)`, which follows no last link, and written.
unfoldable pub create_new : Str → Bytes → OnDisk (Unit {0})
unfolding set_node
create_new path bytes disk =
    change (create_fault (entry disk path) (refused disk path)) disk
      (set_node (place disk path) (some (file bytes)) disk)

abbrev pub rename_fault : Option Node → Option Node → Option Str → Option Str
rename_fault none onto fault = some no_file
rename_fault (some node) (some directory) fault = some is_a_directory
rename_fault (some node) _ fault = fault

-- `fs::rename` of a file, over what file or link the new path names.
unfoldable pub rename : Str → Str → OnDisk (Unit {0})
unfolding set_node
rename old new disk =
    let moved = set_node (place disk new) (entry disk old) (set_node (place disk old) none disk) in
    change (rename_fault (entry disk old) (entry disk new) (refused disk new)) disk moved

abbrev pub remove_fault : Option Node → Option Str → Option Str
remove_fault none fault = some no_file
remove_fault (some directory) fault = some is_a_directory
remove_fault (some _) fault = fault

-- `fs::remove_file`, which removes a link, not what it leads to.
unfoldable pub remove_file : Str → OnDisk (Unit {0})
unfolding set_node
remove_file path disk =
    change (remove_fault (entry disk path) (refused disk path)) disk
      (set_node (place disk path) none disk)
