-- ===== src/Token/Base64/RoundTrip.antt =====
-- What `b64url` writes, `b64url_decode` reads back.
use systemd_ops.Base.{
  ℕ, ◌+◌, ◌*◌, ◌/◌, ◌%◌, ◌<◌, ◌≡◌, refl, ap, ◌∙◌, Bool, true, false, ◌&&◌, [], ◌∷◌, arith, ltb,
  ◌==◌, All, Str, Bytes, IsByte, as_bytes, Result, ok, err, all_below, all_below_sound,
}
use systemd_ops.Token.Base64.{b64_char, b64url, b64_val, decode_bytes, b64url_decode}

is_value : ℕ → Result ℕ → Bool
is_value n (ok v) = v == n
is_value n (err e) = false

is_value-eq : (n : ℕ) (r : Result ℕ) → is_value n r ≡ true → r ≡ ok n
unfolding is_value
is_value-eq n (ok v) h = ground arith
is_value-eq n (err e) h = absurd (cc)

b64_table : all_below 64 (λ n. is_value n (b64_val (b64_char n)) && ltb (b64_char n) 128) ≡ true
unfolding all_below is_value b64_val b64_char
b64_table = refl

b64_val-char : (n : ℕ) → n < 64 → b64_val (b64_char n) ≡ ok n
b64_val-char n h =
    let p = all_below_sound 64 _ n b64_table h in
    is_value-eq n (b64_val (b64_char n)) (ground arith)

b64_char-ascii : (n : ℕ) → n < 64 → b64_char n < 128
b64_char-ascii n h = let p = all_below_sound 64 _ n b64_table h in ground arith

-- The value of one group of characters, from theirs.
decode_group :
    (c0 c1 c2 c3 v0 v1 v2 v3 : ℕ) (rest tail : Bytes)
    → b64_val c0 ≡ ok v0
    → b64_val c1 ≡ ok v1
    → b64_val c2 ≡ ok v2
    → b64_val c3 ≡ ok v3
    → decode_bytes rest ≡ ok tail
    → decode_bytes (c0 ∷ c1 ∷ c2 ∷ c3 ∷ rest)
      ≡ ok ((v0 * 4 % 256 + v1 / 16) ∷ (v1 * 16 % 256 + v2 / 4) ∷ (v2 * 64 % 256 + v3) ∷ tail)
unfolding decode_bytes
decode_group c0 c1 c2 c3 v0 v1 v2 v3 rest tail e0 e1 e2 e3 e = rw (e0, e1, e2, e3, e)

decode-b64url : (b : Bytes) → All IsByte b → decode_bytes (b64url b) ≡ ok b
unfolding b64url
decode-b64url [] h = unfold decode_bytes in refl
decode-b64url (b0 ∷ []) h =
    unfold decode_bytes in
    rw (b64_val-char (b0 / 4) (omega arith), b64_val-char (b0 % 4 * 16 + 0 / 16) (omega arith))
      (ground arith)
decode-b64url (b0 ∷ b1 ∷ []) h =
    unfold decode_bytes in
    rw
      (
        b64_val-char (b0 / 4) (omega arith),
        b64_val-char (b0 % 4 * 16 + b1 / 16) (omega arith),
        b64_val-char (b1 % 16 * 4 + 0 / 64) (omega arith),
      )
      (ground arith)
decode-b64url (b0 ∷ b1 ∷ b2 ∷ rest) h =
    decode_group _ _ _ _ _ _ _ _ (b64url rest) rest (b64_val-char (b0 / 4) (omega arith))
      (b64_val-char (b0 % 4 * 16 + b1 / 16) (omega arith))
      (b64_val-char (b1 % 16 * 4 + b2 / 64) (omega arith)) (b64_val-char (b2 % 64) (omega arith))
      (decode-b64url rest h.1.1.1)
    ∙ ground arith

pub as_bytes-ascii : (s : Str) → All (λ c. c < 128) s → as_bytes s ≡ s
unfolding as_bytes
as_bytes-ascii [] h = refl
as_bytes-ascii (c ∷ s) h =
    let small : ltb c 128 ≡ true = ground arith in rw small (ap (◌∷◌ c) (as_bytes-ascii s h.1))

b64url-ascii : (b : Bytes) → All IsByte b → All (λ c. c < 128) (b64url b)
unfolding b64url
b64url-ascii [] h = tt
b64url-ascii (b0 ∷ []) h = (
  b64_char-ascii (b0 / 4) (omega arith),
  (b64_char-ascii (b0 % 4 * 16 + 0 / 16) (omega arith), tt),
)
b64url-ascii (b0 ∷ b1 ∷ []) h = (
  b64_char-ascii (b0 / 4) (omega arith),
  (
    b64_char-ascii (b0 % 4 * 16 + b1 / 16) (omega arith),
    (b64_char-ascii (b1 % 16 * 4 + 0 / 64) (omega arith), tt),
  ),
)
b64url-ascii (b0 ∷ b1 ∷ b2 ∷ rest) h = (
  b64_char-ascii (b0 / 4) (omega arith),
  (
    b64_char-ascii (b0 % 4 * 16 + b1 / 16) (omega arith),
    (
      b64_char-ascii (b1 % 16 * 4 + b2 / 64) (omega arith),
      (b64_char-ascii (b2 % 64) (omega arith), b64url-ascii rest h.1.1.1),
    ),
  ),
)

-- Decoding returns the bytes that were encoded, whatever they are and how many.
pub b64url_decode-b64url : (b : Bytes) → All IsByte b → b64url_decode (b64url b) ≡ ok b
unfolding b64url_decode
b64url_decode-b64url b h = ap decode_bytes (as_bytes-ascii _ (b64url-ascii b h)) ∙ decode-b64url b h
