-- ===== src/Operations/Author/Tests.antt =====
-- An application of an authoring plan.
use systemd_ops.Base.{
  ◌≡◌, ◌⊎◌, true, false, Option, none, some, [], ◌∷◌, if◌then◌else◌, All, Str, codes, str_eq,
  starts_with, ok, err,
}
use systemd_ops.Files.{Node, file}
use systemd_ops.Json.{null}
use systemd_ops.Operations.Author.{World, Host, AuthoringWork}
use systemd_ops.Operations.Author.Apply.{apply_authoring}
use systemd_ops.Operations.Author.Guard.{IsFresh, apply_authoring_guarded}
use systemd_ops.Operations.Fields.{oneshot}
use systemd_ops.Operations.Spec.{NormalizedSpec}
use systemd_ops.Scope.Discovery.{Platform}
use systemd_ops.Systemd.Names.{user}
use systemd_ops.Systemd.Prefix.{require_write_unit}
use systemd_ops.Write.Authoring.{create}

abbrev platform : Platform
platform = record {
  current_dir = ok (codes "/");
  is_absolute = starts_with (codes "/");
  parent = λ p. none;
  from_utf8 = λ b. ok b;
  from_str = λ s. err (codes "no scope");
}

abbrev host : Host
host = record {
  ctl = record { output = λ log args. ok ([], []) };
  manager = user;
  files_after = λ now before disk. disk;
  prefix = some (codes "*" ∷ []);
  unit_file_dir = codes "/units";
  platform = platform;
  file_name = λ p. none;
  printers = record { to_string = λ v. []; print_int = λ n. codes "0" };
  parse_i32 = λ s. none;
  operation = λ w stem. null;
}

abbrev spec : NormalizedSpec
spec = record {
  unit = codes "a";
  kind = oneshot;
  title = none;
  purpose = none;
  tags = [];
  description = codes "a";
  exec_path = codes "/x";
  exec_argv = codes "-v" ∷ [];
  cwd = none;
  env = [];
  path = [];
  environment_files = [];
  after = [];
  wants_network_online = false;
  restart = none;
  nice = none;
  schedule = none;
  enabled = true;
  start_now = true;
  origin_cwd = none;
  origin_scope = none;
  origin_scope_root = none;
  created_at = codes "2026-01-01T00:00:00Z";
}

abbrev work : AuthoringWork
work = record {
  verb = create;
  spec = some spec;
  snapshots = record { path = codes "/units/a.service"; sha256 = none } ∷ [];
  origin_cwd = none;
}

-- The program is there, and another unit.
abbrev nodes : Str → Option Node
nodes path =
    if str_eq path (codes "/x")
    then some (file [])
    else if str_eq path (codes "/units/b.service")
    then some (file (codes "b"))
    else none

abbrev world : World
world = record {
  disk = record {
    nodes = nodes;
    locate = λ n p. p;
    follow = λ n p. p;
    read_faults = λ n p. none;
    write_faults = λ n p. none;
  };
  log = [];
}

apply_authoring_guarded_example :
    ((e : Str) × (apply_authoring host (codes "a") work none world ≡ (err e, world)))
    ⊎ (All (IsFresh world.disk) work.snapshots
        × (require_write_unit host.prefix (codes "a.service") ≡ ok tt))
apply_authoring_guarded_example = apply_authoring_guarded host (codes "a") work none world
