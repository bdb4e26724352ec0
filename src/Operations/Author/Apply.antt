-- ===== src/Operations/Author/Apply.antt =====
-- `apply_authoring` of src/operations.rs: what a sealed authoring plan does to files and units.
use systemd_ops.Base.{
  Bool, true, false, not, ◌&&◌, Option, none, some, List, [], ◌∷◌, ◌++◌, map, if◌then◌else◌, any,
  Str, codes, str_eq, Result, ok, err,
}
use systemd_ops.Base.Steps.{StepOf, ◌>>=◌, ◌>>◌, give}
use systemd_ops.Files.{exists, remove_file}
use systemd_ops.Json.{Value, null, bool, str, object, opt_str, array, items}
use systemd_ops.Operations.Author.{
  World, Host, AuthoringWork, on_disk, run, look, attempt, ignore, require_all_fresh,
  read_unit_file, planned_files, write_atomic, named,
}
use systemd_ops.Operations.Meta.{FileMeta}
use systemd_ops.Operations.ParseSpec.{validate_abs_path}
use systemd_ops.Operations.Spec.{
  NormalizedSpec, service_name, timer_name, has_install, enable_unit, start_unit, spec_sha,
  str_list,
}
use systemd_ops.Systemd.Prefix.{require_write_unit}
use systemd_ops.Systemd.Runs.{systemctl}
use systemd_ops.Systemd.Units.{collect_lines, apply_verb, ensure_unit_known}
use systemd_ops.Write.Authoring.{AuthoringVerb, create, update, retire, authoring_str, FileSnapshot}

module _ (host : Host) where
  abbrev pub verb_lines : Result (Str × Str) → Result (List Str)
  verb_lines (ok out) = ok (collect_lines (out.0) ++ collect_lines (out.1))
  verb_lines (err e) = err e

  abbrev pub run_verb : Str → Str → StepOf World (List Str)
  run_verb verb unit = run host (apply_verb host.ctl host.manager verb unit none)

  pub daemon_reload : StepOf World (List Str)
  daemon_reload = do
    out ←
        run host (systemctl host.ctl host.manager (codes "daemon-reload" ∷ codes "--no-pager" ∷ []))
    give (ok (collect_lines (out.0) ++ collect_lines (out.1)))

  pub try_disable : Str → StepOf World (List Str)
  try_disable unit = attempt (run_verb (codes "disable") unit)

  pub write_files : List (Str × Str) → StepOf World (Unit {0})
  write_files [] = give (ok tt)
  write_files ((path, contents) ∷ rest) = do
    on_disk (write_atomic host path contents)
    write_files rest

  abbrev pub is_managed : Option FileMeta → Bool
  is_managed none = false
  is_managed (some meta) = meta.managed

  abbrev pub stop_named : Option Str → StepOf World (Unit {0})
  stop_named none = give (ok tt)
  stop_named (some name) = do
    stopped ← attempt (run_verb (codes "stop") name)
    disabled ← try_disable name
    give (ok tt)

  abbrev pub drop_if : Bool → Str → StepOf World (Unit {0})
  drop_if false path = give (ok tt)
  drop_if true path = do stop_named (host.file_name path); ignore (on_disk (remove_file path))

  abbrev pub is_stale : List Str → Str → World → Bool
  is_stale planned path w =
      not (any (λ p. str_eq p path) planned)
      && (exists w.disk path && is_managed (read_unit_file host w.disk path))

  -- The managed files of the snapshots that are not planned again.
  pub drop_stale : List Str → List FileSnapshot → StepOf World (Unit {0})
  drop_stale planned [] = give (ok tt)
  drop_stale planned (snap ∷ rest) = do
    stale ← look (λ w. ok (is_stale planned snap.path w))
    drop_if stale snap.path
    drop_stale planned rest

  abbrev pub disable_timer : Option Str → NormalizedSpec → StepOf World (List Str)
  disable_timer (some timer) spec = try_disable timer
  disable_timer none spec =
      if has_install spec then try_disable (service_name spec) else give (ok [])

  abbrev pub enable_step : AuthoringVerb → NormalizedSpec → Option Str → StepOf World (List Str)
  enable_step verb spec (some unit) = run_verb (codes "enable") unit
  enable_step update spec none = disable_timer (timer_name spec) spec
  enable_step verb spec none = give (ok [])

  abbrev pub start_step : Option Str → StepOf World (List Str)
  start_step (some unit) = run_verb (codes "start") unit
  start_step none = give (ok [])

  abbrev pub snapshot_json : FileSnapshot → Value
  snapshot_json s = object ((codes "path", str s.path) ∷ (codes "sha256", opt_str s.sha256) ∷ [])

  abbrev pub rollback_name : AuthoringVerb → Str
  rollback_name create = codes "retire"
  rollback_name _ = codes "restore-files"

  abbrev pub warning_field : Option Str → List (Str × Value)
  warning_field none = []
  warning_field (some w) = (codes "warning", str w) ∷ []

  abbrev pub written_json :
      Str
      → AuthoringVerb
      → List FileSnapshot
      → NormalizedSpec
      → List Str
      → List Str
      → Option Str
      → World
      → Value
  written_json stem verb snapshots spec written changes warning w = object (
      (codes "class", str (codes "author"))
      ∷ (codes "unit", str stem)
      ∷ (codes "action", str (authoring_str verb))
      ∷ (codes "applied", bool true)
      ∷ (codes "files", str_list written)
      ∷ (codes "daemon_reload", bool true)
      ∷ (codes "enable_unit", opt_str (enable_unit spec))
      ∷ (codes "start_unit", opt_str (start_unit spec))
      ∷ (codes "changes", str_list changes)
      ∷ (codes "spec_sha256", str (spec_sha host.printers.to_string spec))
      ∷ (codes "operation", host.operation w stem)
      ∷ (
        codes "rollback",
        object (
            (codes "action", str (rollback_name verb))
            ∷ (codes "files", array (items (map snapshot_json snapshots)))
            ∷ []),
      )
      ∷ warning_field warning)

  abbrev pub path_of : Str × Str → Str
  path_of (path, contents) = path

  pub apply_written :
      Str → AuthoringVerb → List FileSnapshot → Option Str → NormalizedSpec → StepOf World Value
  apply_written stem verb snapshots warning spec = do
    look (λ w. validate_abs_path w.disk (codes "spec.exec.path") spec.exec_path true)
    write_files (planned_files host spec)
    drop_stale (map path_of (planned_files host spec)) snapshots
    reloaded ← daemon_reload
    enabled ← enable_step verb spec (enable_unit spec)
    started ← start_step (start_unit spec)
    let written = map path_of (planned_files host spec)
    look (λ w.
        ok (
          written_json stem verb snapshots spec written (reloaded ++ enabled ++ started) warning w))

  abbrev pub stop_known : Str → StepOf World (List Str)
  stop_known unit = do
    stopped ← attempt (run_verb (codes "stop") unit)
    disabled ← attempt (try_disable unit)
    give (ok (stopped ++ disabled))

  abbrev pub known : Result (Unit {0}) × World → StepOf World (List Str) → Result (List Str) × World
  known (ok u, w) m = m w
  known (err e, w) m = (ok [], w)

  -- `if ensure_unit_known(unit).is_ok() { .. }`.
  pub stop_unit : Str → StepOf World (List Str)
  stop_unit unit w =
      known (run host (ensure_unit_known host.ctl host.manager unit) w) (stop_known unit)

  abbrev pub remove_if : Bool → Str → StepOf World (List Str)
  remove_if false path = give (ok [])
  remove_if true path = do
    on_disk (λ disk. named (codes "remove") path (remove_file path disk))
    give (ok (path ∷ []))

  pub remove_files : List FileSnapshot → StepOf World (List Str)
  remove_files [] = give (ok [])
  remove_files (snap ∷ rest) = do
    there ← look (λ w. ok (exists w.disk snap.path))
    removed ← remove_if there snap.path
    others ← remove_files rest
    give (ok (removed ++ others))

  pub apply_retire : Str → List FileSnapshot → Option Str → StepOf World Value
  apply_retire stem snapshots warning = do
    timer ← stop_unit (stem ++ codes ".timer")
    service ← stop_unit (stem ++ codes ".service")
    reloaded ← daemon_reload
    removed ← remove_files snapshots
    again ← daemon_reload
    give (
        ok (
          object (
            (codes "class", str (codes "author"))
            ∷ (codes "unit", str stem)
            ∷ (codes "action", str (codes "retire"))
            ∷ (codes "applied", bool true)
            ∷ (codes "files", str_list removed)
            ∷ (codes "daemon_reload", bool true)
            ∷ (codes "changes", str_list (timer ++ service ++ reloaded ++ again))
            ∷ (codes "operation", null)
            ∷ (codes "rollback", null)
            ∷ warning_field warning)))

  abbrev pub apply_spec :
      Str → AuthoringWork → Option Str → Option NormalizedSpec → StepOf World Value
  apply_spec stem work warning none =
      give (err (codes "authoring plan is missing its spec; re-plan"))
  apply_spec stem work warning (some spec) =
      apply_written stem work.verb work.snapshots warning spec

  abbrev pub apply_verb_of : Str → AuthoringWork → Option Str → AuthoringVerb → StepOf World Value
  apply_verb_of stem work warning retire = apply_retire stem work.snapshots warning
  apply_verb_of stem work warning _ = apply_spec stem work warning work.spec

  -- The warning of `context_warning` is an argument.
  unfoldable pub apply_authoring : Str → AuthoringWork → Option Str → StepOf World Value
  unfolding apply_written apply_retire
  apply_authoring stem work warning = do
    look (λ w. require_all_fresh w.disk work.snapshots)
    give (require_write_unit host.prefix (stem ++ codes ".service"))
    apply_verb_of stem work warning work.verb
