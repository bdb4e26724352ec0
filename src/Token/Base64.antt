-- ===== src/Token/Base64.antt =====
-- `b64url` and `b64url_decode` of src/token.rs: base64url with no padding. A shift is a product or
-- a quotient; the operands of each `|` have no bit in common, so it is a sum.
pub mod RoundTrip
use systemd_ops.Base.{
  ℕ, zero, suc, ◌+◌, ◌-◌, ◌*◌, ◌/◌, ◌%◌, ◌^◌, ◌≤◌, ◌<◌, min, max, String, ◌≡◌, refl, sym, ap, ap₂,
  ◌∙◌, subst, ◌≢◌, ◌↔◌, ◌⊎◌, inl, inr, Bool, true, false, not, ◌&&◌, ◌||◌, Option, none, some, List,
  [], ◌∷◌, ◌++◌, map, reverse, arith, ltb, leb, ◌==◌, if◌then◌else◌, within, leb→le, ltb→lt, ==_iff,
  Bool-cases, Option-cases, length, get_or, take, drop, replicate, all, any, retain, All,
  length-append, length-take, length-drop, length-replicate, length-map, All-append, Str, Bytes,
  codes, str_eq, str_eq_iff, str_eq_refl, utf8_char, as_bytes, len, is_empty, is_ascii_lower,
  is_ascii_upper, is_ascii_digit, is_ascii_alphanumeric, is_whitespace, contains, trim_start,
  trim_end, trim, strip_prefix, starts_with, ends_with, contains_str, split, split_once, join,
  ascii_lower, push_front, Result, ok, err, ◌>>=◌, ◌>>◌, ensure, ok_or, all_below, all_below_sound,
  bind-eq-ok, Result-cases,
}

pub invalid_token : Str
invalid_token = codes "invalid plan token"

-- The table T.
abbrev alphabet : Bytes
alphabet = codes "ABCDEFGHIJKLMNOPQRSTUVWXYZabcdefghijklmnopqrstuvwxyz0123456789-_"

unfoldable pub b64_char : ℕ → ℕ
b64_char n = get_or alphabet n 0

-- Three bytes a round; a byte beyond the end counts as 0, and its characters are left out.
unfoldable pub b64url : Bytes → Str
b64url [] = []
b64url (b0 ∷ []) = b64_char (b0 / 4) ∷ b64_char (b0 % 4 * 16 + 0 / 16) ∷ []
b64url (b0 ∷ b1 ∷ []) =
    b64_char (b0 / 4) ∷ b64_char (b0 % 4 * 16 + b1 / 16) ∷ b64_char (b1 % 16 * 4 + 0 / 64) ∷ []
b64url (b0 ∷ b1 ∷ b2 ∷ rest) =
    b64_char (b0 / 4)
    ∷ b64_char (b0 % 4 * 16 + b1 / 16)
    ∷ b64_char (b1 % 16 * 4 + b2 / 64)
    ∷ b64_char (b2 % 64)
    ∷ b64url rest

-- The value of a character.
pub b64_val : ℕ → Result ℕ
b64_val c =
    if within b'A' b'Z' c
    then ok (c - b'A')
    else if within b'a' b'z' c
    then ok (c - b'a' + 26)
    else if within b'0' b'9' c
    then ok (c - b'0' + 52)
    else if c == b'-'
    then ok 62
    else if c == b'_'
    then ok 63
    else err invalid_token

-- Four characters a round; a left shift keeps the low eight bits.
pub decode_bytes : Bytes → Result Bytes
decode_bytes [] = ok []
decode_bytes (c0 ∷ []) = do v0 ← b64_val c0; ok ((v0 * 4 % 256 + 0 / 16) ∷ [])
decode_bytes (c0 ∷ c1 ∷ []) = do
  v0 ← b64_val c0
  v1 ← b64_val c1
  ok ((v0 * 4 % 256 + v1 / 16) ∷ [])
decode_bytes (c0 ∷ c1 ∷ c2 ∷ []) = do
  v0 ← b64_val c0
  v1 ← b64_val c1
  v2 ← b64_val c2
  ok ((v0 * 4 % 256 + v1 / 16) ∷ (v1 * 16 % 256 + v2 / 4) ∷ [])
decode_bytes (c0 ∷ c1 ∷ c2 ∷ c3 ∷ rest) = do
  v0 ← b64_val c0
  v1 ← b64_val c1
  v2 ← b64_val c2
  v3 ← b64_val c3
  tail ← decode_bytes rest
  ok ((v0 * 4 % 256 + v1 / 16) ∷ (v1 * 16 % 256 + v2 / 4) ∷ (v2 * 64 % 256 + v3) ∷ tail)

pub b64url_decode : Str → Result Bytes
unfolding decode_bytes as_bytes
b64url_decode s = decode_bytes (as_bytes s)
