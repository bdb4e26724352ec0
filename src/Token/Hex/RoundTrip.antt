-- ===== src/Token/Hex/RoundTrip.antt =====
-- What `hex` prints, `decode_hex` reads back.
use systemd_ops.Base.{
  ℕ, ◌+◌, ◌*◌, ◌/◌, ◌%◌, ◌<◌, ◌≡◌, refl, ◌∙◌, true, [], ◌∷◌, arith, ◌==◌, length, All, Bytes,
  IsByte, len, ok,
}
use systemd_ops.Sha256.{hex_digit, hex}
use systemd_ops.Sha256.Digest.{length-hex}
use systemd_ops.Token.Base64.RoundTrip.{as_bytes-ascii}
use systemd_ops.Token.Hex.{nibble, decode_pairs, decode_hex}

nibble-hex_digit : (n : ℕ) → n < 16 → nibble (hex_digit n) ≡ ok n
unfolding nibble hex_digit
nibble-hex_digit n h = ground arith

hex-ascii : (b : Bytes) → All IsByte b → All (λ c. c < 128) (hex b)
unfolding hex
hex-ascii [] h = tt
hex-ascii (x ∷ b) h = (ground arith, (ground arith, hex-ascii b h.1))

decode_pair :
    (hi lo h l : ℕ) (rest tail : Bytes)
    → nibble hi ≡ ok h
    → nibble lo ≡ ok l
    → decode_pairs rest ≡ ok tail
    → decode_pairs (hi ∷ lo ∷ rest) ≡ ok ((h * 16 % 256 + l) ∷ tail)
unfolding decode_pairs
decode_pair hi lo h l rest tail e0 e1 e = rw (e0, e1, e)

decode_pairs-hex : (b : Bytes) → All IsByte b → decode_pairs (hex b) ≡ ok b
unfolding hex
decode_pairs-hex [] h = unfold decode_pairs in refl
decode_pairs-hex (x ∷ b) h =
    decode_pair (hex_digit (x / 16)) (hex_digit (x % 16)) (x / 16) (x % 16) (hex b) b
      (nibble-hex_digit (x / 16) (omega arith)) (nibble-hex_digit (x % 16) (omega arith))
      (decode_pairs-hex b h.1)
    ∙ ground arith

-- `decode_hex` reads every byte string back from its hexadecimal print.
pub decode_hex-hex : (b : Bytes) → All IsByte b → decode_hex (hex b) ≡ ok b
unfolding decode_hex len
decode_hex-hex b h =
    let even : (length (hex b) % 2 == 0) ≡ true = ground (arith, length-hex b) in
    rw (as_bytes-ascii (hex b) (hex-ascii b h), even) (decode_pairs-hex b h)
