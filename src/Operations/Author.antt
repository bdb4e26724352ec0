-- ===== src/Operations/Author.antt =====
-- Authoring in src/operations.rs: the files of a plan, their snapshots, and `apply_authoring`. What
-- a run of `systemctl` does to files is a parameter.
pub mod Apply
pub mod Guard
mod Tests
use systemd_ops.Base.{
  ℕ, zero, suc, ◌+◌, ◌-◌, ◌*◌, ◌/◌, ◌%◌, ◌^◌, ◌≤◌, ◌<◌, min, max, String, ◌≡◌, refl, sym, ap, ap₂,
  ◌∙◌, subst, ◌≢◌, ◌↔◌, ◌⊎◌, inl, inr, Bool, true, false, not, ◌&&◌, ◌||◌, Option, none, some, List,
  [], ◌∷◌, ◌++◌, map, reverse, arith, ltb, leb, ◌==◌, if◌then◌else◌, within, leb→le, ltb→lt, ==_iff,
  Bool-cases, Option-cases, length, get_or, take, drop, replicate, all, any, retain, All,
  length-append, length-take, length-drop, length-replicate, length-map, All-append, Str, Bytes,
  IsByte, codes, str_eq, str_eq_iff, str_eq_refl, utf8_char, as_bytes, len, is_empty,
  is_ascii_lower, is_ascii_upper, is_ascii_digit, is_ascii_alphanumeric, is_whitespace, contains,
  trim_start, trim_end, trim, strip_prefix, starts_with, ends_with, contains_str, split, split_once,
  lines, join, ascii_lower, push_front, Result, ok, err, ensure, ok_or, all_below, all_below_sound,
  bind-eq-ok, if-eq-ok, ensure-eq-ok, ok-injective, Result-cases,
}
use systemd_ops.Base.Steps.{StepOf, ◌>>=◌, ◌>>◌, give}
use systemd_ops.Files.{
  Disk, OnDisk, join_path, exists, read, create_dir_all, write, rename, remove_file,
}
use systemd_ops.Json.{Value, ℤ, null, bool, str, object, opt_str, array, items}
use systemd_ops.Operations.Meta.{FileMeta, parse_meta}
use systemd_ops.Operations.ParseSpec.{validate_abs_path}
use systemd_ops.Operations.Render.{Printers, render_service, render_timer}
use systemd_ops.Operations.Spec.{
  NormalizedSpec, service_name, timer_name, has_install, enable_unit, start_unit, spec_sha,
  str_list,
}
use systemd_ops.Scope.Discovery.{Platform}
use systemd_ops.Sha256.{sha256_hex}
use systemd_ops.Systemd.Names.{Manager}
use systemd_ops.Systemd.Prefix.{require_write_unit}
use systemd_ops.Systemd.Runs.{Command, Systemctl, Step, systemctl}
use systemd_ops.Systemd.Units.{collect_lines, apply_verb, ensure_unit_known}
use systemd_ops.Write.Authoring.{AuthoringVerb, create, update, retire, authoring_str, FileSnapshot}

-- The files and the commands run, the last one first.
pub record World : Type 0 where
  pub disk : Disk
  pub log : List Command

-- What the code relies on: `systemctl`, its manager and what the commands that it ran, all of them
-- and those before, do to files, the write prefix, the directory of units,
-- paths, printers, and the view of an operation that an answer shows.
pub record Host : Type 0 where
  pub ctl : Systemctl
  pub manager : Manager
  pub files_after : List Command → List Command → Disk → Disk
  pub prefix : Option (List Str)
  pub unit_file_dir : Str
  pub platform : Platform
  pub file_name : Str → Option Str
  pub printers : Printers
  pub parse_i32 : Str → Option ℤ
  pub operation : World → Str → Value

pub record AuthoringWork : Type 0 where
  pub verb : AuthoringVerb
  pub spec : Option NormalizedSpec
  pub snapshots : List FileSnapshot
  pub origin_cwd : Option Str

abbrev pub with_disk {ℓ} : {A : Type ℓ} → World → Result A × Disk → Result A × World
with_disk w (r, disk) = (r, record w { disk = disk })

abbrev pub on_disk {ℓ} : {A : Type ℓ} → OnDisk A → StepOf World A
on_disk m w = with_disk w (m w.disk)

abbrev pub with_log {ℓ} : {A : Type ℓ} → Host → World → Result A × List Command → Result A × World
with_log host w (r, log) = (r, record { disk = host.files_after log w.log w.disk; log = log })

abbrev pub run {ℓ} : {A : Type ℓ} → Host → Step A → StepOf World A
run host m w = with_log host w (m w.log)

abbrev pub look {ℓ} : {A : Type ℓ} → (World → Result A) → StepOf World A
look f w = (f w, w)

abbrev pub or_empty {ℓ} : {A : Type ℓ} → Result (List A) × World → Result (List A) × World
or_empty (ok l, w) = (ok l, w)
or_empty (err e, w) = (ok [], w)

-- `.or_else(|_| Ok(Vec::new()))`, and `let _ = ..` of a list.
abbrev pub attempt {ℓ} : {A : Type ℓ} → StepOf World (List A) → StepOf World (List A)
attempt m w = or_empty (m w)

abbrev pub dropped : Result (Unit {0}) × World → Result (Unit {0}) × World
dropped (r, w) = (ok tt, w)

-- `let _ = ..`.
abbrev pub ignore : StepOf World (Unit {0}) → StepOf World (Unit {0})
ignore m w = dropped (m w)

abbrev pub sha_of : Result Bytes → Option Str
sha_of (ok bytes) = some (sha256_hex bytes)
sha_of (err e) = none

pub current_sha : Disk → Str → Option Str
current_sha disk path = sha_of (read disk path)

pub snapshot : Disk → Str → FileSnapshot
unfolding current_sha
snapshot disk path = record { path = path; sha256 = current_sha disk path }

abbrev pub same_sha : Option Str → Option Str → Bool
same_sha none none = true
same_sha none (some b) = false
same_sha (some a) none = false
same_sha (some a) (some b) = str_eq a b

abbrev pub or_missing : Option Str → Str
or_missing none = codes "missing"
or_missing (some s) = s

pub require_snapshot_fresh : Disk → FileSnapshot → Result (Unit {0})
require_snapshot_fresh disk snap = ensure (same_sha (current_sha disk snap.path) snap.sha256) (
    codes "plan is stale: '"
    ++ (snap.path
        ++ (codes "' was "
            ++ (or_missing snap.sha256
                ++ (codes " at plan time but is "
                    ++ (or_missing (current_sha disk snap.path) ++ codes " now; re-plan"))))))

-- `a?; b`.
abbrev pub both : Result (Unit {0}) → Result (Unit {0}) → Result (Unit {0})
both (ok u) r = r
both (err e) r = err e

pub require_all_fresh : Disk → List FileSnapshot → Result (Unit {0})
require_all_fresh disk [] = ok tt
require_all_fresh disk (snap ∷ rest) =
    both (require_snapshot_fresh disk snap) (require_all_fresh disk rest)

abbrev pub meta_of : Host → Result Bytes → Option FileMeta
meta_of host (err e) = none
meta_of host (ok bytes) = decoded (host.platform.from_utf8 bytes)
  where
    decoded : Result Str → Option FileMeta
    decoded (err e) = none
    decoded (ok text) = some (parse_meta host.parse_i32 text)

-- The metadata that `read_unit_file` gives.
pub read_unit_file : Host → Disk → Str → Option FileMeta
read_unit_file host disk path = meta_of host (read disk path)

abbrev pub timer_file : Host → NormalizedSpec → Option Str → List (Str × Str)
timer_file host spec none = []
timer_file host spec (some text) =
    (join_path host.unit_file_dir (spec.unit ++ codes ".timer"), text) ∷ []

pub planned_files : Host → NormalizedSpec → List (Str × Str)
planned_files host spec =
    (join_path host.unit_file_dir (service_name spec), render_service host.printers spec)
    ∷ timer_file host spec (render_timer host.printers spec)

-- `path.with_extension("{extension}.mcpd-new")`, of a path with an extension.
abbrev pub temporary : Str → Str
temporary path = path ++ codes ".mcpd-new"

abbrev pub cannot : Str → Str → Result (Unit {0}) → Result (Unit {0})
cannot verb path (ok u) = ok u
cannot verb path (err e) =
    err (codes "cannot " ++ (verb ++ (codes " " ++ (path ++ (codes ": " ++ e)))))

abbrev pub named : Str → Str → Result (Unit {0}) × Disk → Result (Unit {0}) × Disk
named verb path (r, s) = (cannot verb path r, s)

-- A renaming that fails takes the temporary file away.
abbrev pub or_remove : Str → Result (Unit {0}) × Disk → Result (Unit {0}) × Disk
or_remove tmp (ok u, disk) = (ok u, disk)
or_remove tmp (err e, disk) = (err e, (remove_file tmp disk).1)

abbrev pub create_parent : Host → Option Str → OnDisk (Unit {0})
create_parent host none disk = (ok tt, disk)
create_parent host (some dir) disk =
    named (codes "create") dir (create_dir_all host.platform.parent (suc (length dir)) dir disk)

pub write_atomic : Host → Str → Str → OnDisk (Unit {0})
write_atomic host path contents = do
  create_parent host (host.platform.parent path)
  λ disk. named (codes "write") (temporary path) (write (temporary path) (as_bytes contents) disk)
  λ disk.
      named (codes "replace") path (or_remove (temporary path) (rename (temporary path) path disk))
