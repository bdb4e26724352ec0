-- ===== src/Json/Envelope.antt =====
-- src/json.rs: the envelope on stdout, and the code that it gives an error by its message.
use systemd_ops.Base.{
  String, true, false, ◌&&◌, ◌||◌, [], ◌∷◌, map, if◌then◌else◌, Str, codes, contains_str,
  ascii_lower,
}
use systemd_ops.Json.{Value, null, bool, int, pos, str, object}

abbrev schema_version : Value
schema_version = int (pos 1)

pub envelope_ok : Value → Value
envelope_ok payload = object (
    (codes "schema_version", schema_version)
    ∷ (codes "ok", bool true)
    ∷ (codes "data", payload)
    ∷ [])

pub envelope_err : Str → Str → Value → Value
envelope_err code message details = object (
    (codes "schema_version", schema_version)
    ∷ (codes "ok", bool false)
    ∷ (
      codes "error",
      object (
          (codes "code", str code)
          ∷ (codes "message", str message)
          ∷ (codes "details", details)
          ∷ []),
    )
    ∷ [])

pub data Code : Type 0 where
  stale_plan expired_plan manager_mismatch invalid_token not_authored : Code
  forbidden not_found invalid_argument error : Code

-- The word of a code.
pub code_str : Code → Str
code_str stale_plan = codes "stale_plan"
code_str expired_plan = codes "expired_plan"
code_str manager_mismatch = codes "manager_mismatch"
code_str invalid_token = codes "invalid_token"
code_str not_authored = codes "not_authored"
code_str forbidden = codes "forbidden"
code_str not_found = codes "not_found"
code_str invalid_argument = codes "invalid_argument"
code_str error = codes "error"

-- The chain of tests, on the message in lower case.
pub classify_lower : Str → Code
classify_lower m =
    let has = λ (w : String). contains_str (codes w) m in
    if has "stale"
    then stale_plan
    else if has "expired"
    then expired_plan
    else if has "for the" && has "manager"
    then manager_mismatch
    else if has "tamper" || has "invalid plan token" || has "bad mac"
    then invalid_token
    else if has "not mcp-authored" || has "not systemd-ops-authored" || has "not authored"
    then not_authored
    else if has "restricted" || has "must match" || has "refused"
    then forbidden
    else if has "no such"
    then not_found
    else if has "unknown" || has "missing"
    then invalid_argument
    else error

unfoldable pub classify : Str → Code
unfolding classify_lower
classify message = classify_lower (map ascii_lower message)

pub from_backend : Str → Value
unfolding classify code_str envelope_err
from_backend message = envelope_err (code_str (classify message)) message null
