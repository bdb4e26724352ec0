-- ===== src/Operations/Tests.antt =====
-- Command lines and views of src/operations.rs on concrete inputs, with two command lines that are
-- not read back.
use systemd_ops.Base.{
  any, ends_with, List, Str, ◌++◌, ◌≡◌, refl, ◌↔◌, true, false, none, some, [], ◌∷◌, arith, codes,
  str_eq, as_bytes, len, is_whitespace, contains, join, ok, starts_with, trim,
}
use systemd_ops.Json.{array, items, Value, get, get_str, str, object, null}
use systemd_ops.Operations.Context.{
  suffixes, normalize_cwd, drop_slashes, validate_stem, is_operation_stem,
}
use systemd_ops.Operations.Context.Laws.{validate_stem-AnyMatches}
use systemd_ops.Systemd.Glob.{glob_match}
use systemd_ops.Systemd.Names.{is_valid_unit_name}
use systemd_ops.Systemd.Prefix.{write_unit_allowed, require_write_unit}
use systemd_ops.Systemd.Prefix.Laws.{AnyMatches}
use systemd_ops.Operations.Exec.{
  quote_word, exec_line, split_exec, exec_words, needs_quotes, escape_word, unescape_exec_word,
}
use systemd_ops.Operations.Exec.RoundTrip.{split_exec-exec_line}
use systemd_ops.Operations.Fields.{
  calendar, parse_schedule, schedule_for, schedule_object, schedule_of_type, schedule_calendar,
  check_time, validate_time_word, is_time_char, Kind,
}
use systemd_ops.Operations.Fields.{parse_tags, tag_items, is_tag, push_tag, has_tag}
use systemd_ops.Operations.Fields.Tags.{AreTags, parse_tags-AreTags}
use systemd_ops.Operations.Fields.Laws.{IsSchedule, parse_schedule-IsSchedule}
use systemd_ops.Operations.Health.{
  operation_health, healthy, kind_case, is_timer_operation, is_missing, never, succeeded, word_is,
  is_enabled, has_future_trigger, enablement_is_on, enablement_on,
}
use systemd_ops.Operations.Health.Laws.{operation_health-timer}

split_exec-exec_line_example :
    split_exec (exec_line (codes "/bin/echo") (codes "a b" ∷ codes "100%" ∷ codes "$x" ∷ []))
    ≡ (some (codes "/bin/echo"), codes "a b" ∷ codes "100%" ∷ codes "$x" ∷ [])
split_exec-exec_line_example =
    split_exec-exec_line (codes "/bin/echo") (codes "a b" ∷ codes "100%" ∷ codes "$x" ∷ [])
      (ground arith)

-- A double quote in an argument is lost, and with it the bounds of the words.
quote_lost :
    split_exec (exec_line (codes "/bin/echo") ((b'a' ∷ 34 ∷ b' ' ∷ b'b' ∷ []) ∷ []))
    ≡ (some (codes "/bin/echo"), (b'a' ∷ 92 ∷ []) ∷ codes "b" ∷ [])
unfolding split_exec exec_line quote_word exec_words join needs_quotes escape_word as_bytes
    is_whitespace unescape_exec_word
quote_lost = refl

-- An empty argument is dropped.
empty_dropped :
    split_exec (exec_line (codes "/bin/echo") ([] ∷ codes "b" ∷ []))
    ≡ (some (codes "/bin/echo"), codes "b" ∷ [])
unfolding split_exec exec_line quote_word exec_words join needs_quotes escape_word as_bytes
    is_whitespace unescape_exec_word
empty_dropped = refl

-- A timer whose last run succeeded, enabled and without a next run.
abbrev idle_timer : Value
idle_timer = object (
    (codes "kind", str (codes "oneshot"))
    ∷ (codes "activation", str (codes "timer"))
    ∷ (codes "enablement", str (codes "enabled"))
    ∷ (codes "last_result", str (codes "success"))
    ∷ (codes "next", null)
    ∷ [])

operation_health-timer_example : (operation_health idle_timer ≡ healthy) ↔ (
    (is_missing idle_timer ≡ false)
    × (never idle_timer ≡ false)
    × (succeeded idle_timer ≡ true)
    × (word_is idle_timer (codes "state") (codes "failed") ≡ false)
    × (is_enabled idle_timer ≡ true)
    × (has_future_trigger idle_timer ≡ true))
unfolding is_missing get kind_case get_str is_timer_operation is_enabled enablement_is_on
    enablement_on has_future_trigger
operation_health-timer_example = operation_health-timer idle_timer refl refl

abbrev daily : Value
daily =
    object (
      (codes "type", str (codes "calendar"))
      ∷ (codes "on_calendar", str (codes "*-*-* 03:00"))
      ∷ [])

daily_read :
    parse_schedule (some daily) Kind.oneshot ≡ ok (some (calendar (codes "*-*-* 03:00") true none))
unfolding parse_schedule schedule_for schedule_object schedule_of_type schedule_calendar check_time
    validate_time_word is_time_char get get_str str_eq len as_bytes contains
daily_read = refl

parse_schedule-IsSchedule_example :
    (Kind.oneshot ≡ Kind.oneshot) × IsSchedule (calendar (codes "*-*-* 03:00") true none)
parse_schedule-IsSchedule_example = parse_schedule-IsSchedule (some daily) Kind.oneshot daily_read

validate_stem-AnyMatches_example :
    (any (λ suffix. ends_with suffix (codes "a-1")) suffixes ≡ false)
    × (is_valid_unit_name (codes "a-1" ++ codes ".service") ≡ true)
    × ((globs : List Str) × (some (codes "a-*" ∷ []) ≡ some globs)
        × AnyMatches globs (codes "a-1" ++ codes ".service"))
unfolding validate_stem is_operation_stem write_unit_allowed require_write_unit is_valid_unit_name
    ends_with glob_match len as_bytes
validate_stem-AnyMatches_example =
    validate_stem-AnyMatches (some (codes "a-*" ∷ [])) (codes "a-1") refl

-- The root directory as the directory of a call becomes the empty text.
root_lost : normalize_cwd (codes "/") ≡ ok []
unfolding normalize_cwd drop_slashes starts_with contains len as_bytes
root_lost = refl

abbrev three_tags : Value
three_tags = array (items (str (codes "a") ∷ str (codes "b") ∷ str (codes "a") ∷ []))

tags_read : parse_tags (some three_tags) ≡ ok (codes "a" ∷ codes "b" ∷ [])
unfolding parse_tags tag_items is_tag push_tag has_tag trim contains len as_bytes str_eq
tags_read = refl

parse_tags-AreTags_example : AreTags (codes "a" ∷ codes "b" ∷ [])
parse_tags-AreTags_example = parse_tags-AreTags (some three_tags) tags_read
