-- ===== src/Operations/ParseSpec/Laws.antt =====
-- What a specification that src/operations.rs accepts keeps to.
use systemd_ops.Base.{
  ◌≡◌, subst, true, Option, none, some, List, All, Str, codes, starts_with, Result, ok, err, ensure,
  ok_or, bind-eq-ok, ensure-eq-ok, ok-injective,
}
use systemd_ops.Files.{Disk}
use systemd_ops.Operations.Fields.Tags.{AreTags, parse_tags-AreTags}
use systemd_ops.Json.{Value, get, get_str}
use systemd_ops.Operations.Context.{validate_stem}
use systemd_ops.Operations.Fields.{
  Kind, kind_parse, text_field, parse_tags, parse_string_list, parse_schedule, is_obj,
}
use systemd_ops.Operations.ParseSpec
use systemd_ops.Operations.ParseSpec.Checks.{
  check_each-All, IsFilePath, validate_abs_path-IsFilePath, IsDep, check_dep-IsDep, IsCwd,
  parse_cwd-IsCwd, IsRestart, parse_restart-IsRestart, IsNice, parse_nice-IsNice, IsScheduleOption,
  parse_schedule-IsScheduleOption,
}
use systemd_ops.Operations.ParseSpec.{
  without_break, validate_abs_path, check_each, check_arg, check_path_entry, is_allowed_dep,
  check_dep, parse_cwd, parse_env, is_restart, restart_of, parse_restart, is_nice, nice_of,
  parse_nice, stamp, stamp_at, stamp_origin_scope, object_or, CommandPart, ListsPart, PolicyPart,
  TextPart, command_of, lists_of, policy_of, text_of, join_parts, spec_of, parse_spec,
}
use systemd_ops.Operations.Spec.{NormalizedSpec, or_else}
use systemd_ops.Scope.Discovery.{discover}
use systemd_ops.Scope.Manifest.{ScopeManifest}

-- The parts of a specification that are in order.
pub record IsCommand (prefix : Option (List Str)) (disk : Disk) (c : CommandPart) : Type 0 where
  pub good_unit : validate_stem prefix c.unit ≡ ok tt
  pub exec_file : IsFilePath disk c.exec_path
  pub argv_lines : All (λ a. without_break a ≡ true) c.exec_argv
  pub good_cwd : IsCwd disk c.cwd

command_of-IsCommand :
    (ctx : ParseSpec.Context) (args v : Value) {c : CommandPart}
    → command_of ctx args v ≡ ok c
    → IsCommand ctx.prefix ctx.disk c
unfolding command_of
command_of-IsCommand ctx args v h =
    let (unit, e0, h0) =
      bind-eq-ok (ok_or (or_else (get_str v (codes "unit")) (get_str args (codes "unit"))) _) _ h in
    let (u1, e1, h1) = bind-eq-ok (validate_stem ctx.prefix unit) _ h0 in
    let (word, e2, h2) = bind-eq-ok (ok_or (get_str v (codes "kind")) _) _ h1 in
    let (kind, e3, h3) = bind-eq-ok (kind_parse word) _ h2 in
    let (exec, e4, h4) = bind-eq-ok (object_or (get v (codes "exec")) _) _ h3 in
    let (exec_path, e5, h5) = bind-eq-ok (ok_or (get_str exec (codes "path")) _) _ h4 in
    let (u6, e6, h6) =
      bind-eq-ok (validate_abs_path ctx.disk (codes "spec.exec.path") exec_path true) _ h5 in
    let (argv, e7, h7) =
      bind-eq-ok (parse_string_list (codes "spec.exec.argv") (get exec (codes "argv"))) _ h6 in
    let (u8, e8, h8) = bind-eq-ok (check_each check_arg argv) _ h7 in
    let (cwd, e9, h9) = bind-eq-ok (parse_cwd ctx.disk (get_str v (codes "cwd"))) _ h8 in
    let (env, e10, h10) = bind-eq-ok (parse_env (get v (codes "env"))) _ h9 in
    subst (IsCommand ctx.prefix ctx.disk) (ok-injective h10) (record {
      good_unit = e1;
      exec_file = validate_abs_path-IsFilePath ctx.disk _ exec_path e6;
      argv_lines = check_each-All _ check_arg (λ a u e. ensure-eq-ok (without_break a) _ e) argv e8;
      good_cwd = parse_cwd-IsCwd ctx.disk (get_str v (codes "cwd")) e9;
    })

pub record IsLists (prefix : Option (List Str)) (disk : Disk) (l : ListsPart) : Type 0 where
  pub path_entries : All (λ p. starts_with (codes "/") p ≡ true) l.path
  pub env_files : All (IsFilePath disk) l.environment_files
  pub after_deps : All (IsDep prefix) l.after

lists_of-IsLists :
    (ctx : ParseSpec.Context) (v : Value) {l : ListsPart}
    → lists_of ctx v ≡ ok l
    → IsLists ctx.prefix ctx.disk l
unfolding lists_of
lists_of-IsLists ctx v h =
    let (path, e1, h1) =
      bind-eq-ok (parse_string_list (codes "spec.path") (get v (codes "path"))) _ h in
    let (u2, e2, h2) = bind-eq-ok (check_each check_path_entry path) _ h1 in
    let (files, e3, h3) =
      bind-eq-ok
        (parse_string_list (codes "spec.environment_files") (get v (codes "environment_files"))) _
        h2 in
    let (u4, e4, h4) =
      bind-eq-ok
        (check_each (λ f. validate_abs_path ctx.disk (codes "spec.environment_files") f true) files)
        _ h3 in
    let (after, e5, h5) =
      bind-eq-ok (parse_string_list (codes "spec.after") (get v (codes "after"))) _ h4 in
    let (u6, e6, h6) = bind-eq-ok (check_each (check_dep ctx.prefix) after) _ h5 in
    subst (IsLists ctx.prefix ctx.disk) (ok-injective h6) (record {
      path_entries =
          check_each-All _ check_path_entry (λ p u e. ensure-eq-ok (starts_with (codes "/") p) _ e)
            path e2;
      env_files =
          check_each-All _ (λ f. validate_abs_path ctx.disk (codes "spec.environment_files") f true)
            (λ f u e. validate_abs_path-IsFilePath ctx.disk _ f e) files e4;
      after_deps =
          check_each-All _ (check_dep ctx.prefix) (λ d u e. check_dep-IsDep ctx.prefix d e) after
            e6;
    })

pub record IsPolicy (kind : Kind) (p : PolicyPart) : Type 0 where
  pub good_restart : IsRestart kind p.restart
  pub good_nice : IsNice p.nice
  pub good_schedule : IsScheduleOption kind p.schedule

policy_of-IsPolicy :
    (v : Value) (kind : Kind) {p : PolicyPart} → policy_of v kind ≡ ok p → IsPolicy kind p
unfolding policy_of
policy_of-IsPolicy v kind h =
    let (restart, e1, h1) = bind-eq-ok (parse_restart (get_str v (codes "restart")) kind) _ h in
    let (nice, e2, h2) = bind-eq-ok (parse_nice (get v (codes "nice"))) _ h1 in
    let (schedule, e3, h3) = bind-eq-ok (parse_schedule (get v (codes "schedule")) kind) _ h2 in
    subst (IsPolicy kind) (ok-injective h3) (record {
      good_restart = parse_restart-IsRestart (get_str v (codes "restart")) kind e1;
      good_nice = parse_nice-IsNice (get v (codes "nice")) e2;
      good_schedule = parse_schedule-IsScheduleOption (get v (codes "schedule")) kind schedule e3;
    })

text_of-AreTags : (v : Value) {t : TextPart} → text_of v ≡ ok t → AreTags t.tags
unfolding text_of
text_of-AreTags v h =
    let (title, e1, h1) =
      bind-eq-ok (text_field (codes "spec.title") (get_str v (codes "title")) 200 (codes "200")) _
        h in
    let (purpose, e2, h2) =
      bind-eq-ok (text_field (codes "spec.purpose") (get_str v (codes "purpose")) 500 (codes "500"))
        _ h1 in
    let (tags, e3, h3) = bind-eq-ok (parse_tags (get v (codes "tags"))) _ h2 in
    let (description, e4, h4) =
      bind-eq-ok
        (text_field (codes "spec.description") (get_str v (codes "description")) 200 (codes "200"))
        _ h3 in
    subst (λ t. AreTags t.tags) (ok-injective h4) (parse_tags-AreTags (get v (codes "tags")) e3)

-- A specification of which the unit files can be written.
pub record IsSpec (prefix : Option (List Str)) (disk : Disk) (spec : NormalizedSpec) : Type 0 where
  pub good_unit : validate_stem prefix spec.unit ≡ ok tt
  pub exec_file : IsFilePath disk spec.exec_path
  pub argv_lines : All (λ a. without_break a ≡ true) spec.exec_argv
  pub good_cwd : IsCwd disk spec.cwd
  pub lists :
      IsLists prefix disk (record {
        path = spec.path;
        environment_files = spec.environment_files;
        after = spec.after;
      })
  pub policy :
      IsPolicy spec.kind
        (record { restart = spec.restart; nice = spec.nice; schedule = spec.schedule })
  pub good_tags : AreTags spec.tags

join_parts-IsSpec :
    (ctx : ParseSpec.Context) (v : Value) (c : CommandPart) (l : ListsPart) (p : PolicyPart)
    (t : TextPart) (origin created : Option Str)
    → IsCommand ctx.prefix ctx.disk c
    → IsLists ctx.prefix ctx.disk l
    → IsPolicy c.kind p
    → AreTags t.tags
    → IsSpec ctx.prefix ctx.disk (join_parts ctx v c l p t origin created)
unfolding join_parts
join_parts-IsSpec ctx v c l p t origin created hc hl hp ht = record {
  good_unit = hc.good_unit;
  exec_file = hc.exec_file;
  argv_lines = hc.argv_lines;
  good_cwd = hc.good_cwd;
  lists = hl;
  policy = hp;
  good_tags = ht;
}

stamp-IsSpec :
    (prefix : Option (List Str)) (disk : Disk) (spec : NormalizedSpec) (r : Result ScopeManifest)
    → IsSpec prefix disk spec
    → IsSpec prefix disk (stamp spec r)
stamp-IsSpec prefix disk spec (ok manifest) h = record {
  good_unit = h.good_unit;
  exec_file = h.exec_file;
  argv_lines = h.argv_lines;
  good_cwd = h.good_cwd;
  lists = h.lists;
  policy = h.policy;
  good_tags = h.good_tags;
}
stamp-IsSpec prefix disk spec (err e) h = h

stamp_at-IsSpec :
    (ctx : ParseSpec.Context) (spec : NormalizedSpec) (o : Option Str)
    → IsSpec ctx.prefix ctx.disk spec
    → IsSpec ctx.prefix ctx.disk (stamp_at ctx spec o)
stamp_at-IsSpec ctx spec none h = h
stamp_at-IsSpec ctx spec (some cwd) h =
    stamp-IsSpec ctx.prefix ctx.disk spec (discover ctx.platform ctx.disk cwd) h

spec_of-IsSpec :
    (ctx : ParseSpec.Context) (args v : Value) (origin created : Option Str) {spec : NormalizedSpec}
    → spec_of ctx args v origin created ≡ ok spec
    → IsSpec ctx.prefix ctx.disk spec
unfolding spec_of stamp_origin_scope
spec_of-IsSpec ctx args v origin created h =
    let (c, e1, h1) = bind-eq-ok (command_of ctx args v) _ h in
    let (l, e2, h2) = bind-eq-ok (lists_of ctx v) _ h1 in
    let (p, e3, h3) = bind-eq-ok (policy_of v c.kind) _ h2 in
    let (t, e4, h4) = bind-eq-ok (text_of v) _ h3 in
    let joined = join_parts ctx v c l p t origin created in
    subst (IsSpec ctx.prefix ctx.disk) (ok-injective h4) (
      stamp_at-IsSpec ctx joined joined.origin_cwd (
        join_parts-IsSpec ctx v c l p t origin created (command_of-IsCommand ctx args v e1)
          (lists_of-IsLists ctx v e2) (policy_of-IsPolicy v c.kind e3) (text_of-AreTags v e4)))

-- A specification that is accepted has a stem that the write prefix allows; a file to run, and
-- environment files, by absolute paths; arguments on one line; a working directory that is one;
-- absolute search paths; dependencies that are one of three targets or allowed by the prefix; a
-- restart policy only if it is simple, a niceness from -20 to 19, a schedule only if it is oneshot,
-- and tags that are well formed.
pub parse_spec-IsSpec :
    (ctx : ParseSpec.Context) (args : Value) (origin created : Option Str) {spec : NormalizedSpec}
    → parse_spec ctx args origin created ≡ ok spec
    → IsSpec ctx.prefix ctx.disk spec
unfolding parse_spec
parse_spec-IsSpec ctx args origin created h =
    let (v, e, h1) = bind-eq-ok (ok_or (get args (codes "spec")) _) _ h in
    let (u, e1, h2) = bind-eq-ok (ensure (is_obj v) _) _ h1 in
    spec_of-IsSpec ctx args v origin created h2
