-- ===== src/Systemd/Clock/Dates.antt =====
-- The dates of `civil_from_days` are those of the Gregorian calendar.
use systemd_ops.Base.{
  ℕ, zero, suc, ◌+◌, ◌-◌, ◌*◌, ◌/◌, ◌%◌, ◌<◌, ◌≡◌, refl, sym, ap, ap₂, ◌∙◌, subst, ◌≢◌, inl, inr,
  Bool, true, not, ◌&&◌, ◌||◌, arith, ltb, leb, ◌==◌, if◌then◌else◌, Bool-cases, all_below,
  all_below_sound,
}
use systemd_ops.Systemd.Clock.{Date, civil_from_days}

abbrev leap : ℕ → Bool
leap y = y % 4 == 0 && not (y % 100 == 0) || y % 400 == 0

abbrev days_in_month : ℕ → ℕ → ℕ
days_in_month y m =
    if m == 2
    then (if leap y then 29 else 28)
    else if m == 4 || m == 6 || m == 9 || m == 11
    then 30
    else 31

-- The day after, by the rules of the calendar.
pub next_day : Date → Date
next_day d =
    if ltb d.day (days_in_month d.year d.month)
    then record d { day = d.day + 1 }
    else if ltb d.month 12
    then record d { month = d.month + 1; day = 1 }
    else record { year = d.year + 1; month = 1; day = 1 }

-- The date of a day of an era of 400 years.
date_of : ℕ → ℕ → Date
date_of era doe =
    let yoe = (doe - doe / 1_460 + doe / 36_524 - doe / 146_096) / 365 in
    let doy = doe - (365 * yoe + yoe / 4 - yoe / 100) in
    let mp = (5 * doy + 2) / 153 in
    let month = if ltb mp 10 then mp + 3 else mp - 9 in
    record {
      year = yoe + era * 400 + (if leb month 2 then 1 else 0);
      month = month;
      day = doy - (153 * mp + 2) / 5 + 1;
    }

date_eq : Date → Date → Bool
date_eq a b = a.year == b.year && a.month == b.month && a.day == b.day

follows : ℕ → Bool
unfolding date_of next_day date_eq
follows doe = date_eq (next_day (date_of 0 doe)) (date_of 0 (doe + 1))

-- The days of an era, in eight parts.
abbrev PartFollows : ℕ → Type 0
PartFollows k = all_below 18_262 (λ i. follows (k * 18_262 + i)) ≡ true

PartFollows-0 : PartFollows 0
unfolding follows all_below
PartFollows-0 = refl

PartFollows-1 : PartFollows 1
unfolding follows all_below
PartFollows-1 = refl

PartFollows-2 : PartFollows 2
unfolding follows all_below
PartFollows-2 = refl

PartFollows-3 : PartFollows 3
unfolding follows all_below
PartFollows-3 = refl

PartFollows-4 : PartFollows 4
unfolding follows all_below
PartFollows-4 = refl

PartFollows-5 : PartFollows 5
unfolding follows all_below
PartFollows-5 = refl

PartFollows-6 : PartFollows 6
unfolding follows all_below
PartFollows-6 = refl

PartFollows-7 : PartFollows 7
unfolding follows all_below
PartFollows-7 = refl

PartFollows-all : (k : ℕ) → k < 8 → PartFollows k
PartFollows-all zero h = PartFollows-0
PartFollows-all (suc zero) h = PartFollows-1
PartFollows-all (suc (suc zero)) h = PartFollows-2
PartFollows-all (suc (suc (suc zero))) h = PartFollows-3
PartFollows-all (suc (suc (suc (suc zero)))) h = PartFollows-4
PartFollows-all (suc (suc (suc (suc (suc zero))))) h = PartFollows-5
PartFollows-all (suc (suc (suc (suc (suc (suc zero)))))) h = PartFollows-6
PartFollows-all (suc (suc (suc (suc (suc (suc (suc zero))))))) h = PartFollows-7
PartFollows-all (suc (suc (suc (suc (suc (suc (suc (suc k)))))))) h = absurd (omega arith)

follows_below : (doe : ℕ) → doe < 146_096 → follows doe ≡ true
follows_below doe h =
    let at =
      all_below_sound 18_262 (λ i. follows (doe / 18_262 * 18_262 + i)) (doe % 18_262)
        (PartFollows-all (doe / 18_262) (omega arith)) (omega arith) in
    subst (λ x. follows x ≡ true) (omega arith) at

date_eq-eq : (a b : Date) → date_eq a b ≡ true → a ≡ b
unfolding date_eq
date_eq-eq a b h = ground arith

follows-eq : (doe : ℕ) → follows doe ≡ true → next_day (date_of 0 doe) ≡ date_of 0 (doe + 1)
unfolding follows
follows-eq doe h = date_eq-eq (next_day (date_of 0 doe)) (date_of 0 (doe + 1)) h

-- A later era has the same dates, 400 years on for each era.
shift : ℕ → Date → Date
shift era d = record d { year = d.year + era * 400 }

date_of-shift : (era doe : ℕ) → date_of era doe ≡ shift era (date_of 0 doe)
unfolding date_of shift
date_of-shift era doe = ground arith

leap-add : (y era : ℕ) → leap (y + era * 400) ≡ leap y
leap-add y era =
    let a : (y + era * 400) % 4 ≡ y % 4 = omega arith in
    let b : (y + era * 400) % 100 ≡ y % 100 = omega arith in
    let c : (y + era * 400) % 400 ≡ y % 400 = omega arith in rw (a, b, c)

next_day-shift : (era : ℕ) (d : Date) → next_day (shift era d) ≡ shift era (next_day d)
unfolding next_day shift
next_day-shift era d = rw (leap-add d.year era) (ground arith)

next_day-date_of :
    (era doe : ℕ) → doe < 146_096 → next_day (date_of era doe) ≡ date_of era (doe + 1)
next_day-date_of era doe h =
    ap next_day (date_of-shift era doe)
    ∙ next_day-shift era (date_of 0 doe)
    ∙ ap (shift era) (follows-eq doe (follows_below doe h))
    ∙ sym (date_of-shift era (doe + 1))

-- The last day of an era, 29 February, is before the first of the next.
next_day-last : (era : ℕ) → next_day (date_of era 146_096) ≡ date_of (era + 1) 0
unfolding next_day date_of
next_day-last era = ground arith

civil-date_of :
    (days : ℕ)
    → civil_from_days days ≡ date_of ((days + 719_468) / 146_097) ((days + 719_468) % 146_097)
unfolding civil_from_days date_of
civil-date_of days =
    let z = days + 719_468 in
    let rest : z - z / 146_097 * 146_097 ≡ z % 146_097 = omega arith in
    ap (date_of (z / 146_097)) rest

civil_from_days-next_day : (days : ℕ) → civil_from_days (suc days) ≡ next_day (civil_from_days days)
civil_from_days-next_day days =
    let z = days + 719_468 in
    let now = civil-date_of days in
    let later = civil-date_of (suc days) in
    elim (Bool-cases (z % 146_097 == 146_096)) [
      | inl last ↦
          let e : z % 146_097 ≡ 146_096 = ground arith in
          later
          ∙ ap₂ date_of (omega arith) (omega arith)
          ∙ sym (next_day-last (z / 146_097))
          ∙ sym (ap next_day (now ∙ ap (date_of (z / 146_097)) e))
      | inr inside ↦
          let ne : z % 146_097 ≢ 146_096 = ground arith in
          later
          ∙ ap₂ date_of (omega arith) (omega arith)
          ∙ sym (next_day-date_of (z / 146_097) (z % 146_097) (omega arith))
          ∙ sym (ap next_day now)
    ]

-- Day 0 has the date 1 January 1970, and each day the date that follows its predecessor's in the
-- Gregorian calendar.
pub civil_from_days-calendar :
    (days : ℕ)
    → (civil_from_days 0 ≡ record { year = 1970; month = 1; day = 1 })
      × (civil_from_days (suc days) ≡ next_day (civil_from_days days))
civil_from_days-calendar days = (unfold civil_from_days in refl, civil_from_days-next_day days)
