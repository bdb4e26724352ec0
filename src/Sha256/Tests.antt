-- ===== src/Sha256/Tests.antt =====
-- The test vectors of src/sha256.rs.
use systemd_ops.Base.{ℕ, ◌<◌, ◌%◌, ◌≡◌, refl, [], ◌∷◌, ◌++◌, length, replicate, codes}
use systemd_ops.Sha256.{sha256_hex, hmac_sha256, hex, pad, to_be_bytes, bit_len}
use systemd_ops.Sha256.Padding.{pad_shape}

sha256_abc :
    sha256_hex (codes "abc")
    ≡ codes "ba7816bf8f01cfea414140de5dae2223b00361a396177a9cb410ff61f20015ad"
unfolding sha256_hex
sha256_abc = refl

sha256_empty :
    sha256_hex [] ≡ codes "e3b0c44298fc1c149afbf4c8996fb92427ae41e4649b934ca495991b7852b855"
unfolding sha256_hex
sha256_empty = refl

hmac_rfc4231_case1 :
    hex (hmac_sha256 (replicate 20 0x0b) (codes "Hi There"))
    ≡ codes "b0344c61d8db38535ca8afceaf0bf12b881dc200c9833da726e9376c2e32cff7"
unfolding hmac_sha256 hex
hmac_rfc4231_case1 = refl

pad_shape_example :
    (k : ℕ) × (pad (codes "abc")
      ≡ (codes "abc" ++ 0x80 ∷ []) ++ replicate k 0 ++ to_be_bytes 8 (bit_len (codes "abc")))
    × (k < 64)
    × (length (pad (codes "abc")) % 64 ≡ 0)
pad_shape_example = pad_shape (codes "abc")
