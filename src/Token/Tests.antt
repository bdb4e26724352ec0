-- ===== src/Token/Tests.antt =====
-- Plans, tokens and encodings of src/token.rs on concrete inputs.
use systemd_ops.Base.{
  ◌≡◌, refl, ◌↔◌, true, none, some, [], ◌∷◌, arith, replicate, Str, Bytes, codes, ok,
}
use systemd_ops.Config.{OpsConfig}
use systemd_ops.Json.{Value, object, str}
use systemd_ops.Sha256.{hex, hmac_sha256}
use systemd_ops.Systemd.Names.{user}
use systemd_ops.Token.Base64.{b64url, b64url_decode}
use systemd_ops.Token.Base64.RoundTrip.{b64url_decode-b64url}
use systemd_ops.Token.Hex.{decode_hex, ct_eq}
use systemd_ops.Token.Hex.Compare.{ct_eq_iff}
use systemd_ops.Token.Hex.RoundTrip.{decode_hex-hex}
use systemd_ops.Token.Plan.{
  JsonText, issue, control, SealedPlan, fresh_plan, body_of, token_text, mint, parse,
}
use systemd_ops.Token.Plan.Seal.{parse-mint}
use systemd_ops.Token.Plan.Sound.{Signed, Accepted, parse-Signed}

abbrev some_bytes : Bytes
some_bytes = 0 ∷ 255 ∷ 128 ∷ 7 ∷ []

abbrev cfg : OpsConfig
cfg = record { manager = user; write_prefix = none; plan_ttl_secs = 600; state_dir = codes "/run" }

abbrev payload : Value
payload = object ((codes "action", str (codes "start")) ∷ [])

abbrev sealed : SealedPlan
sealed = fresh_plan cfg 1_000 control (codes "a.service") none payload

-- A text format that knows the one body.
abbrev one_body : JsonText
one_body = record { to_text = λ v. codes "{}"; from_slice = λ b. some (body_of sealed) }

abbrev a_key : Bytes
a_key = replicate 32 7

abbrev a_token : Str
a_token = token_text (codes "{}") (hmac_sha256 a_key (codes "{}"))

minted :
    mint one_body cfg (ok a_key) 1_000 control (codes "a.service") none payload
    ≡ ok (a_token, sealed)
unfolding mint issue
minted = refl

parse-mint_example : parse one_body cfg (ok a_key) 1_600 a_token ≡ ok sealed
parse-mint_example =
    parse-mint one_body cfg a_key 1_000 1_600 control (codes "a.service") none payload refl
      (omega arith) (omega arith) (omega arith) minted

accepted : parse one_body cfg (ok a_key) 1_600 a_token ≡ ok sealed
accepted =
    parse-mint one_body cfg a_key 1_000 1_600 control (codes "a.service") none payload refl
      (omega arith) (omega arith) (omega arith) minted

parse-Signed_example :
    (k raw : Bytes) × (body : Value) × (ok a_key ≡ ok k)
    × Signed k a_token raw
    × (some (body_of sealed) ≡ some body)
    × Accepted cfg 1_600 body sealed
parse-Signed_example = parse-Signed one_body cfg (ok a_key) 1_600 a_token accepted

ct_eq_iff_example : (ct_eq some_bytes some_bytes ≡ true) ↔ (some_bytes ≡ some_bytes)
ct_eq_iff_example = ct_eq_iff some_bytes some_bytes (omega arith) (omega arith)

b64url_decode-b64url_example : b64url_decode (b64url some_bytes) ≡ ok some_bytes
b64url_decode-b64url_example = b64url_decode-b64url some_bytes (omega arith)

decode_hex-hex_example : decode_hex (hex some_bytes) ≡ ok some_bytes
decode_hex-hex_example = decode_hex-hex some_bytes (omega arith)
