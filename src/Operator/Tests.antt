-- ===== src/Operator/Tests.antt =====
-- Runs of src/operator.rs: a summary, a report, a session and a surface that is read back.
use systemd_ops.Base.{
  ◌≤◌, ◌≡◌, refl, none, some, List, [], ◌∷◌, map, arith, length, replicate, All, Str, codes, str_eq,
  err, contains, trim, ok,
}
use systemd_ops.Json.{pos}
use systemd_ops.Operator.{
  strict_single_line, line_of, strict_summary, summary_items, item_of, has_break, IsParagraph,
  min_items, max_items, strict_summary-IsParagraph,
}
use systemd_ops.Operator.Surface.{OperatorSurface, empty_surface, surface_json}
use systemd_ops.Operator.Parse.{surface_of}
use systemd_ops.Operator.RoundTrip.{surface_of-surface_json}
use systemd_ops.Operator.Iterations.{
  Verdict, blocked_route, verdict_of, blocked_verdict, validate_report_outcome,
}
use systemd_ops.Operator.Session.{
  Event, start, report, note, finish, surface_run, session_run, idle, StandsFor,
  surface_run-StandsFor,
}
use systemd_ops.Operator.Kept.{IsEvent, IsKept, surface_run-IsKept}
use systemd_ops.Files.{Disk}
use systemd_ops.Operator.Store.{Desk}
use systemd_ops.Operator.Verdicts.{IsVerdict, validate_report_outcome-IsVerdict}

abbrev notes : List Str
notes = replicate min_items (codes " done ")

noted : strict_summary notes ≡ ok (map trim notes)
unfolding strict_summary summary_items item_of has_break contains trim
noted = refl

strict_summary-IsParagraph_example :
    (map trim notes ≡ map trim notes)
    × All IsParagraph (map trim notes)
    × (min_items ≤ length notes)
    × (length notes ≤ max_items)
strict_summary-IsParagraph_example = strict_summary-IsParagraph notes noted

-- A first iteration is reported and finished, a second one is left for a third.
abbrev verdict : Verdict
verdict = record { outcome = codes "ready"; route = none }

abbrev events : List Event
events =
    start (codes "a") (codes "t0")
    ∷ report (codes "done") (codes "body") verdict (codes "t1") (some (codes "r1"))
    ∷ note (record { at = codes "t1"; text = codes "noted" })
    ∷ finish (codes "a") (pos 0) (codes "t2")
    ∷ start (codes "b") (codes "t3")
    ∷ start (codes "c") (codes "t4")
    ∷ []

events-AreEvents : All IsEvent events
events-AreEvents = (
  (refl, refl),
  (
    (refl, refl, refl, tt, refl, refl),
    (
      record { at_text = refl; text_text = refl },
      ((omega arith, refl), ((refl, refl), ((refl, refl), tt))),
    ),
  ),
)

surface_run-StandsFor_example :
    StandsFor (surface_run empty_surface events) (session_run idle events)
surface_run-StandsFor_example = surface_run-StandsFor events

surface_run-IsKept_example : IsKept (surface_run empty_surface events)
surface_run-IsKept_example = surface_run-IsKept events events-AreEvents

abbrev written : OperatorSurface
written = surface_run empty_surface events

surface_of-surface_json_example : surface_of (surface_json written) ≡ ok written
surface_of-surface_json_example =
    surface_of-surface_json written (surface_run-IsKept events events-AreEvents).0

blocked :
    validate_report_outcome (some (codes "blocked ")) (some (codes "lead"))
    ≡ ok (record { outcome = codes "blocked"; route = some (codes "lead") })
unfolding validate_report_outcome strict_single_line verdict_of blocked_verdict blocked_route str_eq
    trim contains line_of has_break
blocked = refl

validate_report_outcome-IsVerdict_example :
    IsVerdict (record { outcome = codes "blocked"; route = some (codes "lead") })
validate_report_outcome-IsVerdict_example =
    validate_report_outcome-IsVerdict (some (codes "blocked ")) (some (codes "lead")) blocked

-- A disk without links, where every path names its own place.
abbrev desk : Desk
desk = record {
  from_slice = λ b. err (codes "none");
  to_vec_pretty = λ v. codes "{}";
  print_list = λ l. [];
  pid = codes "7";
}

abbrev disk : Disk
disk = record {
  nodes = λ p. none;
  locate = λ n p. p;
  follow = λ n p. p;
  read_faults = λ n p. none;
  write_faults = λ n p. none;
}
