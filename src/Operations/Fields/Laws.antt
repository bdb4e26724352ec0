-- ===== src/Operations/Fields/Laws.antt =====
-- What the validated fields of an operation are.
use systemd_ops.Base.{
  ◌≤◌, ◌≡◌, refl, subst, inl, inr, Bool, true, false, ◌||◌, Option, none, some, arith, Bool-cases,
  all, Str, codes, str_eq, len, is_empty, ok, ensure, ok_or, bind-eq-ok,
}
use systemd_ops.Json.{Value, get_str, is_null}
use systemd_ops.Operations.Fields.{
  Kind, simple, oneshot, oneshot_linger, Schedule, interval, calendar, is_time_char,
  validate_time_word, check_time, is_some, is_obj, schedule_interval, schedule_calendar,
  schedule_of_type, schedule_object, schedule_for, parse_schedule,
}

-- A word of systemd's time syntax: 1 to 64 bytes, of the characters allowed.
abbrev pub IsTimeWord : Str → Type 0
IsTimeWord s = (is_empty s ≡ false) × (len s ≤ 64) × (all is_time_char s ≡ true)

abbrev pub IsTimeOption : Option Str → Type 0
IsTimeOption none = Unit
IsTimeOption (some s) = IsTimeWord s

-- A schedule of which every time is a time word, and an interval of which something follows a run.
abbrev pub IsSchedule : Schedule → Type 0
IsSchedule (interval on_boot on_active on_inactive persistent accuracy) =
    IsTimeWord on_boot
    × IsTimeOption on_active
    × IsTimeOption on_inactive
    × IsTimeOption accuracy
    × ((is_some on_active || is_some on_inactive) ≡ true)
IsSchedule (calendar on_calendar persistent accuracy) =
    IsTimeWord on_calendar × IsTimeOption accuracy

validate_time_word-IsTimeWord : (label s : Str) → validate_time_word label s ≡ ok tt → IsTimeWord s
unfolding validate_time_word
validate_time_word-IsTimeWord label s h = ground arith

check_time-IsTimeOption :
    (label : Str) (o : Option Str) → check_time label o ≡ ok tt → IsTimeOption o
unfolding check_time
check_time-IsTimeOption label none h = tt
check_time-IsTimeOption label (some s) h = validate_time_word-IsTimeWord label s h

schedule_interval-IsSchedule :
    (v : Value) (p : Bool) (a : Option Str) {s : Schedule}
    → IsTimeOption a
    → schedule_interval v p a ≡ ok (some s)
    → IsSchedule s
unfolding schedule_interval
schedule_interval-IsSchedule v p a {s} ha h =
    let (boot, e1, h1) = bind-eq-ok (ok_or (get_str v (codes "on_boot_sec")) _) _ h in
    let (u2, e2, h2) =
      bind-eq-ok
        (ensure
          (is_some (get_str v (codes "on_unit_active_sec"))
            || is_some (get_str v (codes "on_unit_inactive_sec")))
          (codes "schedule interval requires on_unit_active_sec or on_unit_inactive_sec"))
        _ h1 in
    let (u3, e3, h3) = bind-eq-ok (validate_time_word (codes "schedule.on_boot_sec") boot) _ h2 in
    let (u4, e4, h4) =
      bind-eq-ok
        (check_time (codes "schedule.on_unit_active_sec") (get_str v (codes "on_unit_active_sec")))
        _ h3 in
    let (u5, e5, h5) =
      bind-eq-ok
        (check_time (codes "schedule.on_unit_inactive_sec")
          (get_str v (codes "on_unit_inactive_sec")))
        _ h4 in
    let is : interval boot (get_str v (codes "on_unit_active_sec"))
          (get_str v (codes "on_unit_inactive_sec")) p a
        ≡ s =
      cc in
    subst IsSchedule is (
      validate_time_word-IsTimeWord _ boot e3,
      check_time-IsTimeOption _ _ e4,
      check_time-IsTimeOption _ _ e5,
      ha,
      ground (arith, e2),
    )

schedule_calendar-IsSchedule :
    (v : Value) (p : Bool) (a : Option Str) {s : Schedule}
    → IsTimeOption a
    → schedule_calendar v p a ≡ ok (some s)
    → IsSchedule s
unfolding schedule_calendar
schedule_calendar-IsSchedule v p a {s} ha h =
    let (at, e1, h1) = bind-eq-ok (ok_or (get_str v (codes "on_calendar")) _) _ h in
    let (u2, e2, h2) = bind-eq-ok (validate_time_word _ at) _ h1 in
    let is : calendar at p a ≡ s = cc in
    subst IsSchedule is (validate_time_word-IsTimeWord _ at e2, ha)

schedule_object-IsSchedule :
    (v : Value) {s : Schedule} → schedule_object v ≡ ok (some s) → IsSchedule s
unfolding schedule_object schedule_of_type
schedule_object-IsSchedule v h =
    let (u1, e1, h1) = bind-eq-ok (ensure (is_obj v) _) _ h in
    let (ty, e2, h2) = bind-eq-ok (ok_or (get_str v (codes "type")) _) _ h1 in
    let (u3, e3, h3) = bind-eq-ok (check_time _ (get_str v (codes "accuracy_sec"))) _ h2 in
    let ha = check_time-IsTimeOption _ _ e3 in
    elim (Bool-cases (str_eq ty (codes "interval"))) [
      | inl y ↦ schedule_interval-IsSchedule v _ _ ha (rw y at h3)
      | inr n ↦ elim (Bool-cases (str_eq ty (codes "calendar"))) [
        | inl y ↦ schedule_calendar-IsSchedule v _ _ ha (rw (n, y) at h3)
        | inr n2 ↦ let no_type = rw (n, n2) at h3 in cc
      ]
    ]

schedule_for-IsSchedule :
    (kind : Kind) (v : Value) {s : Schedule}
    → schedule_for kind v ≡ ok (some s)
    → (kind ≡ oneshot) × IsSchedule s
unfolding schedule_for
schedule_for-IsSchedule simple v h = cc
schedule_for-IsSchedule oneshot v h = (refl, schedule_object-IsSchedule v h)
schedule_for-IsSchedule oneshot_linger v h = cc

-- A schedule that is read belongs to a oneshot operation, all its times are words of 1 to 64 bytes of
-- systemd's time syntax, and an interval tells what follows a run.
pub parse_schedule-IsSchedule :
    (v : Option Value) (kind : Kind) {s : Schedule}
    → parse_schedule v kind ≡ ok (some s)
    → (kind ≡ oneshot) × IsSchedule s
unfolding parse_schedule
parse_schedule-IsSchedule none kind h = cc
parse_schedule-IsSchedule (some v) kind h = elim (Bool-cases (is_null v)) [
  | inl y ↦ let no_value = rw y at h in cc
  | inr n ↦ schedule_for-IsSchedule kind v (rw n at h)
]
