-- ===== src/Systemd/Clock.antt =====
-- `usec_to_rfc3339` and `civil_from_days` of src/systemd.rs. The instants are `u64`, so the days
-- since 1970 that the conversion meets are not negative, and `era` is a plain quotient.
pub mod Dates
mod Tests
use systemd_ops.Base.{
  ℕ, zero, suc, ◌+◌, ◌-◌, ◌*◌, ◌/◌, ◌%◌, ◌^◌, ◌≤◌, ◌<◌, min, max, String, ◌≡◌, refl, sym, ap, ◌∙◌,
  subst, ◌≢◌, ◌↔◌, ◌⊎◌, inl, inr, Bool, true, false, not, ◌&&◌, ◌||◌, Option, none, some, List, [],
  ◌∷◌, ◌++◌, map, reverse, arith, ltb, leb, ◌==◌, if◌then◌else◌, within, leb→le, ltb→lt, ==_iff,
  Bool-cases, Option-cases, length, get_or, take, drop, replicate, all, any, retain, All,
  length-append, length-take, length-drop, length-replicate, length-map, All-append, Str, Bytes,
  codes, str_eq, str_eq_iff, str_eq_refl, utf8_char, as_bytes, len, is_empty, is_ascii_lower,
  is_ascii_upper, is_ascii_digit, is_ascii_alphanumeric, is_whitespace, contains, trim_start,
  trim_end, trim, strip_prefix, starts_with, ends_with, contains_str, split, split_once, join,
  ascii_lower, push_front, Result, ok, err, ◌>>=◌, ◌>>◌, ensure, ok_or, bind-eq-ok, Result-cases,
}

-- The digits of a number, most significant first; the fuel bounds their number.
digits : ℕ → ℕ → Str
digits zero n = []
digits (suc fuel) n =
    let front = digits fuel (n / 10) in
    if ltb n 10 then (b'0' + n) ∷ [] else front ++ (b'0' + n % 10) ∷ []

-- `{n}` of a `u64`, which has 20 digits at most.
pub print_u64 : ℕ → Str
unfolding digits
print_u64 n = digits 20 n

-- `{n:0width}`.
pub print_padded : ℕ → ℕ → Str
unfolding print_u64
print_padded width n = let s = print_u64 n in replicate (width - length s) b'0' ++ s

pub record Date : Type 0 where
  pub year : ℕ
  pub month : ℕ
  pub day : ℕ

pub civil_from_days : ℕ → Date
civil_from_days days =
    let z = days + 719_468 in
    let era = z / 146_097 in
    let doe = z - era * 146_097 in
    let yoe = (doe - doe / 1_460 + doe / 36_524 - doe / 146_096) / 365 in
    let doy = doe - (365 * yoe + yoe / 4 - yoe / 100) in
    let mp = (5 * doy + 2) / 153 in
    let month = if ltb mp 10 then mp + 3 else mp - 9 in
    record {
      year = yoe + era * 400 + (if leb month 2 then 1 else 0);
      month = month;
      day = doy - (153 * mp + 2) / 5 + 1;
    }

-- `saturating_mul`.
pub usec_of_secs : ℕ → ℕ
usec_of_secs secs = min (secs * 1_000_000) (2 ^ 64 - 1)

pub usec_to_rfc3339 : ℕ → Str
unfolding civil_from_days print_padded
usec_to_rfc3339 usec =
    let secs = usec / 1_000_000 in
    let date = civil_from_days (secs / 86_400) in
    let sod = secs % 86_400 in
    print_padded 4 date.year
    ++ (codes "-"
        ++ (print_padded 2 date.month
            ++ (codes "-"
                ++ (print_padded 2 date.day
                    ++ (codes "T"
                        ++ (print_padded 2 (sod / 3_600)
                            ++ (codes ":"
                                ++ (print_padded 2 (sod % 3_600 / 60)
                                    ++ (codes ":"
                                        ++ (print_padded 2 (sod % 60)
                                            ++ (codes "."
                                                ++ (print_padded 6 (usec % 1_000_000)
                                                    ++ codes "Z"))))))))))))

-- `config::unix_to_rfc3339`.
pub unix_to_rfc3339 : ℕ → Str
unfolding usec_to_rfc3339 usec_of_secs
unix_to_rfc3339 secs = usec_to_rfc3339 (usec_of_secs secs)
