-- ===== src/Token/Hex.antt =====
-- `decode_hex` and `ct_eq` of src/token.rs.
pub mod RoundTrip
pub mod Compare
use Prim.Native.Nat.{bit_or, bit_xor}
use systemd_ops.Base.{
  ℕ, zero, suc, ◌+◌, ◌-◌, ◌*◌, ◌/◌, ◌%◌, ◌^◌, ◌≤◌, ◌<◌, min, max, String, ◌≡◌, refl, sym, ap, ap₂,
  ◌∙◌, subst, ◌≢◌, ◌↔◌, ◌⊎◌, inl, inr, Bool, true, false, not, ◌&&◌, ◌||◌, Option, none, some, List,
  [], ◌∷◌, ◌++◌, map, reverse, arith, ltb, leb, ◌==◌, if◌then◌else◌, within, leb→le, ltb→lt, ==_iff,
  Bool-cases, Option-cases, length, get_or, take, drop, replicate, all, any, retain, All,
  length-append, length-take, length-drop, length-replicate, length-map, All-append, Str, Bytes,
  codes, str_eq, str_eq_iff, str_eq_refl, utf8_char, as_bytes, len, is_empty, is_ascii_lower,
  is_ascii_upper, is_ascii_digit, is_ascii_alphanumeric, is_whitespace, contains, trim_start,
  trim_end, trim, strip_prefix, starts_with, ends_with, contains_str, split, split_once, join,
  ascii_lower, push_front, Result, ok, err, ◌>>=◌, ◌>>◌, ensure, ok_or, all_below, all_below_sound,
  bind-eq-ok, Result-cases,
}
use systemd_ops.Token.Base64.{invalid_token}

-- `nibble`.
unfoldable pub nibble : ℕ → Result ℕ
nibble c =
    if within b'0' b'9' c
    then ok (c - b'0')
    else if within b'a' b'f' c
    then ok (c - b'a' + 10)
    else if within b'A' b'F' c
    then ok (c - b'A' + 10)
    else err invalid_token

-- The loop over pairs, entered with an even number of bytes; `nibble << 4` keeps eight bits.
unfoldable pub decode_pairs : Bytes → Result Bytes
decode_pairs [] = ok []
decode_pairs (c ∷ []) = err invalid_token
decode_pairs (hi ∷ lo ∷ rest) = do
  h ← nibble hi
  l ← nibble lo
  tail ← decode_pairs rest
  ok ((h * 16 % 256 + l) ∷ tail)

unfoldable pub decode_hex : Str → Result Bytes
decode_hex s = do ensure (len s % 2 == 0) invalid_token; decode_pairs (as_bytes s)

-- `for i in 0..a.len() { acc |= a[i] ^ b[i] }`
pub ct_loop : ℕ → Bytes → Bytes → ℕ
ct_loop acc (x ∷ a) (y ∷ b) = ct_loop (bit_or acc (bit_xor x y)) a b
ct_loop acc _ _ = acc

pub ct_eq : Bytes → Bytes → Bool
unfolding ct_loop
ct_eq a b = length a == length b && ct_loop 0 a b == 0
