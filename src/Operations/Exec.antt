-- ===== src/Operations/Exec.antt =====
-- The quoting of command lines in src/operations.rs (`quote_word`, `exec_line`) and their reading
-- (`split_exec`, `unescape_exec_word`).
pub mod RoundTrip
use systemd_ops.Base.{
  ℕ, zero, suc, ◌+◌, ◌-◌, ◌*◌, ◌/◌, ◌%◌, ◌^◌, ◌≤◌, ◌<◌, min, max, String, ◌≡◌, refl, sym, ap, ap₂,
  ◌∙◌, subst, ◌≢◌, ◌↔◌, ◌⊎◌, inl, inr, Bool, true, false, not, ◌&&◌, ◌||◌, Option, none, some, List,
  [], ◌∷◌, ◌++◌, map, reverse, arith, ltb, leb, ◌==◌, if◌then◌else◌, within, leb→le, ltb→lt, ==_iff,
  Bool-cases, Option-cases, length, get_or, take, drop, replicate, all, any, retain, All,
  length-append, length-take, length-drop, length-replicate, length-map, All-append, Str, Bytes,
  IsByte, codes, str_eq, str_eq_iff, str_eq_refl, utf8_char, as_bytes, len, is_empty,
  is_ascii_lower, is_ascii_upper, is_ascii_digit, is_ascii_alphanumeric, is_whitespace, contains,
  trim_start, trim_end, trim, strip_prefix, starts_with, ends_with, contains_str, split, split_once,
  lines, join, ascii_lower, push_front, Result, ok, err, ◌>>=◌, ◌>>◌, ensure, ok_or, all_below,
  all_below_sound, bind-eq-ok, Result-cases,
}

-- `s.replace(c, to)`.
pub replace_char : ℕ → Str → Str → Str
replace_char c to [] = []
replace_char c to (x ∷ s) =
    let rest = replace_char c to s in if x == c then to ++ rest else x ∷ rest

unfoldable pub escape_word : Str → Str
unfolding replace_char
escape_word s = replace_char b'%' (b'%' ∷ b'%' ∷ []) (
    replace_char b'$' (92 ∷ b'$' ∷ [])
      (replace_char 34 (92 ∷ 34 ∷ []) (replace_char 92 (92 ∷ 92 ∷ []) s)))

abbrev pub special_bytes : Bytes
special_bytes =
    34 ∷ 39 ∷ 92 ∷ b'$' ∷ b'`' ∷ b'|' ∷ b'&' ∷ b';' ∷ b'(' ∷ b')' ∷ b'<' ∷ b'>' ∷ b'{' ∷ b'}' ∷ b'['
    ∷ b']' ∷ b'*' ∷ b'?' ∷ b'#' ∷ b'~' ∷ b'=' ∷ []

abbrev pub wants_quotes : ℕ → Bool
wants_quotes b = leb b 32 || any (λ x. x == b) special_bytes

unfoldable pub needs_quotes : Str → Bool
needs_quotes escaped = is_empty escaped || any wants_quotes (as_bytes escaped)

unfoldable pub quote_word : Str → Str
quote_word s =
    let escaped = escape_word s in
    if needs_quotes escaped then 34 ∷ (escaped ++ 34 ∷ []) else escaped

unfoldable pub exec_line : Str → List Str → Str
exec_line path argv = join (codes " ") (quote_word path ∷ map quote_word argv)

-- A pair of characters that stands for its second one.
abbrev pub is_escape : ℕ → ℕ → Bool
is_escape c d = (c == 92 && (d == 92 || (d == b'$' || d == 34))) || (c == b'%' && d == b'%')

unfoldable pub unescape_exec_word : Str → Str
unescape_exec_word [] = []
unescape_exec_word (c ∷ []) = c ∷ []
unescape_exec_word (c ∷ d ∷ s) = elim (is_escape c d) [
  | true ↦ d ∷ unescape_exec_word s
  | false ↦ c ∷ unescape_exec_word (d ∷ s)
]

-- The word read so far, where there is one, and the words behind it.
abbrev pub end_word : Str → List Str → List Str
end_word [] ws = ws
end_word (c ∷ cur) ws = (c ∷ cur) ∷ ws

-- The loop of `split_exec`, from the word read so far and `in_quote`.
unfoldable pub exec_words : Str → Str → Bool → List Str
exec_words [] cur in_quote = end_word cur []
exec_words (c ∷ s) cur in_quote = elim (c == 34) [
  | true ↦ exec_words s cur (not in_quote)
  | false ↦ elim (is_whitespace c && not in_quote) [
    | true ↦ end_word cur (exec_words s [] in_quote)
    | false ↦ exec_words s (cur ++ c ∷ []) in_quote
  ]
]

abbrev pub path_and_argv : List Str → Option Str × List Str
path_and_argv [] = (none, [])
path_and_argv (w ∷ ws) = (some (unescape_exec_word w), map unescape_exec_word ws)

unfoldable pub split_exec : Str → Option Str × List Str
split_exec line = path_and_argv (exec_words line [] false)
