-- ===== src/Sha256/Digest.antt =====
-- The size of what src/sha256.rs returns, and how HMAC reads its key.
use systemd_ops.Base.{
  zero, suc, IsByte, All, ℕ, ◌-◌, ◌*◌, ◌/◌, ◌≤◌, ◌<◌, ◌≡◌, refl, sym, ap, ◌∙◌, inl, inr, true,
  false, [], ◌∷◌, ◌++◌, arith, ltb, if◌then◌else◌, Bool-cases, length, replicate, length-append,
  length-replicate, Bytes,
}
use systemd_ops.Sha256.{
  Words, to_be_bytes, digest_bytes, compress_all, initial_hash, pad, chunks_exact, sha256, hex,
  sha256_hex, block_key, hmac_sha256, xor_pad,
}

length-digest_bytes : (h : Words) → length (digest_bytes h) ≡ 32
unfolding digest_bytes to_be_bytes
length-digest_bytes h = refl

pub length-sha256 : (msg : Bytes) → length (sha256 msg) ≡ 32
unfolding sha256
length-sha256 msg =
    length-digest_bytes
      (compress_all initial_hash (chunks_exact (length (pad msg) / 64) 64 (pad msg)))

pub length-hex : (b : Bytes) → length (hex b) ≡ 2 * length b
unfolding hex
length-hex [] = refl
length-hex (x ∷ b) = omega (arith, length-hex b)

-- A digest prints as 64 characters.
pub length-sha256_hex : (msg : Bytes) → length (sha256_hex msg) ≡ 64
unfolding sha256_hex
length-sha256_hex msg = omega (arith, length-hex (sha256 msg), length-sha256 msg)

abbrev fill : Bytes → Bytes
fill short = short ++ replicate (64 - length short) 0

length-fill : (short : Bytes) → length short ≤ 64 → length (fill short) ≡ 64
length-fill short h = omega (
  arith,
  length-append short (replicate (64 - length short) 0),
  length-replicate {A = ℕ} (64 - length short) 0,
)

-- Every key becomes one block.
pub length-block_key : (key : Bytes) → length (block_key key) ≡ 64
unfolding block_key
length-block_key key = elim (Bool-cases (ltb 64 (length key))) [
  | inl long ↦ rw long (length-fill (sha256 key) (omega (arith, length-sha256 key)))
  | inr short ↦ rw short (length-fill key (ground arith))
]

block_key_long : (key : Bytes) → 64 < length key → block_key key ≡ block_key (sha256 key)
unfolding block_key
block_key_long key h =
    let long : ltb 64 (length key) ≡ true = ground arith in
    let short : ltb 64 (length (sha256 key)) ≡ false = ground (arith, length-sha256 key) in
    ap (λ b. fill (if b then sha256 key else key)) long
    ∙ sym (ap (λ b. fill (if b then sha256 (sha256 key) else sha256 key)) short)

-- A key longer than a block and its digest authenticate alike.
pub hmac_sha256-long_key :
    (key msg : Bytes) → 64 < length key → hmac_sha256 key msg ≡ hmac_sha256 (sha256 key) msg
unfolding hmac_sha256
hmac_sha256-long_key key msg h = rw (block_key_long key h)

pub length-hmac_sha256 : (key msg : Bytes) → length (hmac_sha256 key msg) ≡ 32
unfolding hmac_sha256
length-hmac_sha256 key msg =
    length-sha256 (xor_pad 0x5c (block_key key) ++ sha256 (xor_pad 0x36 (block_key key) ++ msg))

to_be_bytes-IsByte : (n x : ℕ) → All IsByte (to_be_bytes n x)
unfolding to_be_bytes
to_be_bytes-IsByte zero x = tt
to_be_bytes-IsByte (suc n) x = (omega arith, to_be_bytes-IsByte n x)

digest_bytes-IsByte : (h : Words) → All IsByte (digest_bytes h)
unfolding digest_bytes to_be_bytes
digest_bytes-IsByte h = omega arith

pub sha256-IsByte : (msg : Bytes) → All IsByte (sha256 msg)
unfolding sha256
sha256-IsByte msg =
    digest_bytes-IsByte
      (compress_all initial_hash (chunks_exact (length (pad msg) / 64) 64 (pad msg)))

pub hmac_sha256-IsByte : (key msg : Bytes) → All IsByte (hmac_sha256 key msg)
unfolding hmac_sha256
hmac_sha256-IsByte key msg =
    sha256-IsByte (xor_pad 0x5c (block_key key) ++ sha256 (xor_pad 0x36 (block_key key) ++ msg))
