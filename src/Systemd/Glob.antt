-- ===== src/Systemd/Glob.antt =====
-- `glob_match` of src/systemd.rs: `*` and `?` over bytes, with one saved star to go back to. A
-- position in the pattern or in the name is the rest that begins there.
pub mod Spec
pub mod Sound
pub mod Complete
use systemd_ops.Base.{
  ℕ, zero, suc, ◌+◌, ◌-◌, ◌*◌, ◌/◌, ◌%◌, ◌^◌, ◌≤◌, ◌<◌, min, max, String, ◌≡◌, refl, sym, ap, ◌∙◌,
  subst, ◌≢◌, ◌↔◌, ◌⊎◌, inl, inr, Bool, true, false, not, ◌&&◌, ◌||◌, Option, none, some, List, [],
  ◌∷◌, ◌++◌, map, reverse, arith, ltb, leb, ◌==◌, if◌then◌else◌, within, leb→le, ltb→lt, ==_iff,
  Bool-cases, Option-cases, length, get_or, take, drop, replicate, all, any, retain, All,
  length-append, length-take, length-drop, length-replicate, length-map, All-append, Str, Bytes,
  codes, str_eq, str_eq_iff, str_eq_refl, utf8_char, as_bytes, len, is_empty, is_ascii_lower,
  is_ascii_upper, is_ascii_digit, is_ascii_alphanumeric, is_whitespace, contains, trim_start,
  trim_end, trim, strip_prefix, starts_with, ends_with, contains_str, split, split_once, join,
  ascii_lower, Result, ok, err, ◌>>=◌, ◌>>◌, ensure, ok_or, bind-eq-ok, Result-cases,
}

abbrev pub tail : Bytes → Bytes
tail [] = []
tail (c ∷ t) = t

-- `i < pat.len() && pat[i] == b'*'`
abbrev pub at_star : Bytes → Bool
at_star [] = false
at_star (x ∷ p) = x == b'*'

-- `i < pat.len() && (pat[i] == b'?' || pat[i] == text[j])`
abbrev pub at_one : Bytes → ℕ → Bool
at_one [] c = false
at_one (x ∷ p) c = x == b'?' || x == c

-- The `while` loop: the pattern left, the text left, and the saved star as the pattern behind it
-- (`at + 1`) and the text where it was last tried (`restart`).
pub glob_loop : ℕ → Bytes → Bytes → Option (Bytes × Bytes) → Bool
glob_loop zero p t star = false
glob_loop (suc fuel) p [] star = all (λ c. c == b'*') p
glob_loop (suc fuel) p (c ∷ t) star =
    let saved = glob_loop fuel (tail p) (c ∷ t) (some (tail p, c ∷ t)) in
    let advanced = glob_loop fuel (tail p) t star in
    let back : Bool = elim star [
      | none ↦ false
      | some (q, r) ↦ glob_loop fuel q (tail r) (some (q, tail r))
    ] in
    if at_star p then saved else if at_one p c then advanced else back

abbrev pub glob_fuel : Bytes → Bytes → ℕ
glob_fuel p t = (length t + 1) * (length p + 1)

pub glob_bytes : Bytes → Bytes → Bool
unfolding glob_loop
glob_bytes p t = glob_loop (glob_fuel p t) p t none

unfoldable pub glob_match : Str → Str → Bool
unfolding glob_bytes as_bytes
glob_match pattern name = glob_bytes (as_bytes pattern) (as_bytes name)
