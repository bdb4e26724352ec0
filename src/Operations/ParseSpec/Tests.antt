-- ===== src/Operations/ParseSpec/Tests.antt =====
-- A specification that is accepted.
use systemd_ops.Base.{
  ◌≡◌, refl, true, false, Option, none, some, [], ◌∷◌, if◌then◌else◌, Str, codes, str_eq, utf8_char,
  as_bytes, len, contains, starts_with, ends_with, ok, err,
}
use systemd_ops.Files.{Node, file, metadata}
use systemd_ops.Json.{Value, str, object, array, items, get}
use systemd_ops.Operations.ParseSpec
use systemd_ops.Operations.ParseSpec.{parse_spec, spec_of}
use systemd_ops.Operations.ParseSpec.Laws.{IsSpec, parse_spec-IsSpec}
use systemd_ops.Operations.Fields.{oneshot}
use systemd_ops.Operations.Spec.{NormalizedSpec}
use systemd_ops.Scope.Discovery.{Platform}

abbrev args : Value
args = object (
    (
      codes "spec",
      object (
          (codes "unit", str (codes "a"))
          ∷ (codes "kind", str (codes "oneshot"))
          ∷ (
            codes "exec",
            object (
                (codes "path", str (codes "/x"))
                ∷ (codes "argv", array (items (str (codes "-v") ∷ [])))
                ∷ []),
          )
          ∷ []),
    )
    ∷ [])

abbrev platform : Platform
platform = record {
  current_dir = ok (codes "/");
  is_absolute = starts_with (codes "/");
  parent = λ p. none;
  from_utf8 = λ b. ok b;
  from_str = λ s. err (codes "no scope");
}

abbrev nodes : Str → Option Node
nodes path = if str_eq path (codes "/x") then some (file []) else none

abbrev context : ParseSpec.Context
context = record {
  prefix = some (codes "*" ∷ []);
  platform = platform;
  disk = record {
    nodes = nodes;
    locate = λ n p. p;
    follow = λ n p. p;
    read_faults = λ n p. none;
    write_faults = λ n p. none;
  };
  now_rfc3339 = codes "2026-01-01T00:00:00Z";
}

abbrev spec : NormalizedSpec
spec = record {
  unit = codes "a";
  kind = oneshot;
  title = none;
  purpose = none;
  tags = [];
  description = codes "a";
  exec_path = codes "/x";
  exec_argv = codes "-v" ∷ [];
  cwd = none;
  env = [];
  path = [];
  environment_files = [];
  after = [];
  wants_network_online = false;
  restart = none;
  nice = none;
  schedule = none;
  enabled = true;
  start_now = false;
  origin_cwd = none;
  origin_scope = none;
  origin_scope_root = none;
  created_at = codes "2026-01-01T00:00:00Z";
}

accepted : parse_spec context args none none ≡ ok spec
unfolding parse_spec spec_of get ParseSpec.command_of systemd_ops.Json.get_str
    systemd_ops.Operations.Context.validate_stem ends_with
    systemd_ops.Operations.Context.is_operation_stem systemd_ops.Systemd.Names.is_valid_unit_name
    systemd_ops.Systemd.Prefix.write_unit_allowed systemd_ops.Systemd.Prefix.require_write_unit
    systemd_ops.Operations.Fields.kind_parse ParseSpec.validate_abs_path ParseSpec.check_each
    systemd_ops.Operations.Fields.parse_string_list systemd_ops.Operations.Fields.string_items
    systemd_ops.Operations.Fields.text_field ParseSpec.parse_cwd ParseSpec.parse_env
    ParseSpec.lists_of ParseSpec.policy_of ParseSpec.text_of ParseSpec.parse_restart
    ParseSpec.parse_nice systemd_ops.Operations.Fields.parse_schedule
    systemd_ops.Operations.Fields.parse_tags ParseSpec.join_parts ParseSpec.stamp_origin_scope len
    metadata starts_with contains str_eq utf8_char as_bytes
accepted = refl

parse_spec-IsSpec_example : IsSpec context.prefix context.disk spec
parse_spec-IsSpec_example = parse_spec-IsSpec context args none none accepted
