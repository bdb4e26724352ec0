-- ===== src/Sha256.antt =====
-- src/sha256.rs: SHA-256, its HMAC and the hexadecimal print of a digest. A `u32` is a number below
-- 2 ^ 32, with the wrap of `wrapping_add` written out; a byte is a number below 256.
pub mod Padding
pub mod Digest
mod Tests
use Prim.Native.Nat.{bit_and, bit_xor}
use systemd_ops.Base.{
  ℕ, zero, suc, ◌+◌, ◌-◌, ◌*◌, ◌/◌, ◌%◌, ◌^◌, ◌≤◌, ◌<◌, min, max, String, ◌≡◌, refl, sym, ap, ◌∙◌,
  subst, ◌≢◌, ◌↔◌, ◌⊎◌, inl, inr, Bool, true, false, not, ◌&&◌, ◌||◌, Option, none, some, List, [],
  ◌∷◌, ◌++◌, map, reverse, arith, ltb, leb, ◌==◌, if◌then◌else◌, within, leb→le, ltb→lt, ==_iff,
  Bool-cases, Option-cases, length, get_or, take, drop, replicate, all, any, retain, All,
  length-append, length-take, length-drop, length-replicate, length-map, All-append, Str, Bytes,
  codes, str_eq, str_eq_iff, str_eq_refl, utf8_char, as_bytes, len, is_empty, is_ascii_lower,
  is_ascii_upper, is_ascii_digit, is_ascii_alphanumeric, is_whitespace, contains, trim_start,
  trim_end, trim, strip_prefix, starts_with, ends_with, contains_str, split, split_once, join,
  ascii_lower, Result, ok, err, ◌>>=◌, ◌>>◌, ensure, ok_or, bind-eq-ok, Result-cases,
}

abbrev pub u32_mod : ℕ
u32_mod = 2 ^ 32

-- The round constants.
abbrev k_table : List ℕ
k_table =
    0x428a2f98 ∷ 0x71374491 ∷ 0xb5c0fbcf ∷ 0xe9b5dba5 ∷ 0x3956c25b ∷ 0x59f111f1 ∷ 0x923f82a4
    ∷ 0xab1c5ed5 ∷ 0xd807aa98 ∷ 0x12835b01 ∷ 0x243185be ∷ 0x550c7dc3 ∷ 0x72be5d74 ∷ 0x80deb1fe
    ∷ 0x9bdc06a7 ∷ 0xc19bf174 ∷ 0xe49b69c1 ∷ 0xefbe4786 ∷ 0x0fc19dc6 ∷ 0x240ca1cc ∷ 0x2de92c6f
    ∷ 0x4a7484aa ∷ 0x5cb0a9dc ∷ 0x76f988da ∷ 0x983e5152 ∷ 0xa831c66d ∷ 0xb00327c8 ∷ 0xbf597fc7
    ∷ 0xc6e00bf3 ∷ 0xd5a79147 ∷ 0x06ca6351 ∷ 0x14292967 ∷ 0x27b70a85 ∷ 0x2e1b2138 ∷ 0x4d2c6dfc
    ∷ 0x53380d13 ∷ 0x650a7354 ∷ 0x766a0abb ∷ 0x81c2c92e ∷ 0x92722c85 ∷ 0xa2bfe8a1 ∷ 0xa81a664b
    ∷ 0xc24b8b70 ∷ 0xc76c51a3 ∷ 0xd192e819 ∷ 0xd6990624 ∷ 0xf40e3585 ∷ 0x106aa070 ∷ 0x19a4c116
    ∷ 0x1e376c08 ∷ 0x2748774c ∷ 0x34b0bcb5 ∷ 0x391c0cb3 ∷ 0x4ed8aa4a ∷ 0x5b9cca4f ∷ 0x682e6ff3
    ∷ 0x748f82ee ∷ 0x78a5636f ∷ 0x84c87814 ∷ 0x8cc70208 ∷ 0x90befffa ∷ 0xa4506ceb ∷ 0xbef9a3f7
    ∷ 0xc67178f2 ∷ []

-- `rotate_right`.
rotr : ℕ → ℕ → ℕ
rotr x n = x / 2 ^ n + x % 2 ^ n * 2 ^ (32 - n)

wrapping_add : ℕ → ℕ → ℕ
wrapping_add a b = (a + b) % u32_mod

-- `to_be_bytes` of an n-byte word.
pub to_be_bytes : ℕ → ℕ → Bytes
to_be_bytes zero x = []
to_be_bytes (suc n) x = x / 256 ^ n % 256 ∷ to_be_bytes n x

-- `u32::from_be_bytes`.
from_be_bytes : Bytes → ℕ
from_be_bytes b =
    get_or b 0 0 * 2 ^ 24 + get_or b 1 0 * 2 ^ 16 + get_or b 2 0 * 2 ^ 8 + get_or b 3 0

-- `while padded.len() % 64 != 56 { padded.push(0) }`, with fuel for the rounds.
pub push_zeros : ℕ → Bytes → Bytes
push_zeros zero padded = padded
push_zeros (suc fuel) padded =
    let rest = push_zeros fuel (padded ++ 0 ∷ []) in
    if length padded % 64 == 56 then padded else rest

-- `(msg.len() as u64).saturating_mul(8)`
abbrev pub bit_len : Bytes → ℕ
bit_len msg = min (length msg * 8) (2 ^ 64 - 1)

pub pad : Bytes → Bytes
unfolding push_zeros to_be_bytes
pad msg = push_zeros 64 (msg ++ 0x80 ∷ []) ++ to_be_bytes 8 (bit_len msg)

-- `chunks_exact(size)`, for the number of chunks.
pub chunks_exact : ℕ → ℕ → Bytes → List Bytes
chunks_exact zero size b = []
chunks_exact (suc n) size b = take size b ∷ chunks_exact n size (drop size b)

-- `w[0..16]`, from the words of the chunk.
first_words : ℕ → Bytes → List ℕ
first_words zero chunk = []
first_words (suc n) chunk = from_be_bytes (take 4 chunk) ∷ first_words n (drop 4 chunk)

-- `w[i]` from the words before it.
next_word : List ℕ → ℕ → ℕ
unfolding rotr wrapping_add
next_word w i =
    let w15 = get_or w (i - 15) 0 in
    let w2 = get_or w (i - 2) 0 in
    let s0 = bit_xor (bit_xor (rotr w15 7) (rotr w15 18)) (w15 / 2 ^ 3) in
    let s1 = bit_xor (bit_xor (rotr w2 17) (rotr w2 19)) (w2 / 2 ^ 10) in
    wrapping_add (wrapping_add (wrapping_add (get_or w (i - 16) 0) s0) (get_or w (i - 7) 0)) s1

-- `for i in 16..64`, for the rounds left.
extend_words : ℕ → List ℕ → List ℕ
unfolding next_word
extend_words zero w = w
extend_words (suc n) w = extend_words n (w ++ next_word w (length w) ∷ [])

-- The hash words `h[0..8]`, and the working variables `a` to `hh`.
pub record Words : Type 0 where
  pub a : ℕ
  pub b : ℕ
  pub c : ℕ
  pub d : ℕ
  pub e : ℕ
  pub f : ℕ
  pub g : ℕ
  pub hh : ℕ

abbrev initial_hash : Words
initial_hash = record {
  a = 0x6a09e667;
  b = 0xbb67ae85;
  c = 0x3c6ef372;
  d = 0xa54ff53a;
  e = 0x510e527f;
  f = 0x9b05688c;
  g = 0x1f83d9ab;
  hh = 0x5be0cd19;
}

-- One round of the compression loop. `!e` is 2 ^ 32 - 1 - e.
round : Words → ℕ → ℕ → Words
unfolding rotr wrapping_add
round v k w =
    let s1 = bit_xor (bit_xor (rotr v.e 6) (rotr v.e 11)) (rotr v.e 25) in
    let ch = bit_xor (bit_and v.e v.f) (bit_and (u32_mod - 1 - v.e) v.g) in
    let temp1 = wrapping_add (wrapping_add (wrapping_add (wrapping_add v.hh s1) ch) k) w in
    let s0 = bit_xor (bit_xor (rotr v.a 2) (rotr v.a 13)) (rotr v.a 22) in
    let maj = bit_xor (bit_xor (bit_and v.a v.b) (bit_and v.a v.c)) (bit_and v.b v.c) in
    let temp2 = wrapping_add s0 maj in
    record {
      a = wrapping_add temp1 temp2;
      b = v.a;
      c = v.b;
      d = v.c;
      e = wrapping_add v.d temp1;
      f = v.e;
      g = v.f;
      hh = v.g;
    }

-- `for i in 0..64`, over `K[i]` and `w[i]`.
rounds : Words → List ℕ → List ℕ → Words
unfolding round
rounds v (k ∷ ks) (w ∷ ws) = rounds (round v k w) ks ws
rounds v _ _ = v

pub compress : Words → Bytes → Words
unfolding rounds extend_words first_words from_be_bytes wrapping_add
compress h chunk =
    let v = rounds h k_table (extend_words 48 (first_words 16 chunk)) in
    record {
      a = wrapping_add h.a v.a;
      b = wrapping_add h.b v.b;
      c = wrapping_add h.c v.c;
      d = wrapping_add h.d v.d;
      e = wrapping_add h.e v.e;
      f = wrapping_add h.f v.f;
      g = wrapping_add h.g v.g;
      hh = wrapping_add h.hh v.hh;
    }

pub compress_all : Words → List Bytes → Words
unfolding compress
compress_all h [] = h
compress_all h (chunk ∷ rest) = compress_all (compress h chunk) rest

-- The digest: the eight words in big-endian order.
pub digest_bytes : Words → Bytes
unfolding to_be_bytes
digest_bytes h =
    to_be_bytes 4 h.a
    ++ (to_be_bytes 4 h.b
        ++ (to_be_bytes 4 h.c
            ++ (to_be_bytes 4 h.d
                ++ (to_be_bytes 4 h.e
                    ++ (to_be_bytes 4 h.f ++ (to_be_bytes 4 h.g ++ to_be_bytes 4 h.hh))))))

pub sha256 : Bytes → Bytes
unfolding pad chunks_exact compress_all digest_bytes
sha256 msg =
    let padded = pad msg in
    digest_bytes (compress_all initial_hash (chunks_exact (length padded / 64) 64 padded))

-- One digit of `{b:02x}`.
unfoldable pub hex_digit : ℕ → ℕ
hex_digit n = if ltb n 10 then b'0' + n else b'a' + (n - 10)

unfoldable pub hex : Bytes → Str
unfolding hex_digit
hex [] = []
hex (b ∷ bs) = hex_digit (b / 16) ∷ hex_digit (b % 16) ∷ hex bs

pub sha256_hex : Bytes → Str
unfolding sha256 hex
sha256_hex bytes = hex (sha256 bytes)

-- `k`: a long key is hashed, and either is filled up with zeros to a block of 64.
pub block_key : Bytes → Bytes
unfolding sha256
block_key key =
    let short = if ltb 64 (length key) then sha256 key else key in
    short ++ replicate (64 - length short) 0

-- `ipad[i] ^= k[i]`, for a pad of one repeated byte.
pub xor_pad : ℕ → Bytes → Bytes
xor_pad p = map (bit_xor p)

pub hmac_sha256 : Bytes → Bytes → Bytes
unfolding sha256 block_key xor_pad
hmac_sha256 key bytes =
    let k = block_key key in sha256 (xor_pad 0x5c k ++ sha256 (xor_pad 0x36 k ++ bytes))
