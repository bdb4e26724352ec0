-- ===== src/Token/Plan.antt =====
-- Sealed plans of src/token.rs: `issue`, `mint`, `parse` and `require_class`. serde_json is a
-- parameter (the text of a value, and the reading of one); the clock and the outcome of
-- `cfg.hmac_key()` are arguments.
pub mod Seal
pub mod Sound
use systemd_ops.Base.{
  ℕ, zero, suc, ◌+◌, ◌-◌, ◌*◌, ◌/◌, ◌%◌, ◌^◌, ◌≤◌, ◌<◌, min, max, String, ◌≡◌, refl, sym, ap, ap₂,
  ◌∙◌, subst, ◌≢◌, ◌↔◌, ◌⊎◌, inl, inr, Bool, true, false, not, ◌&&◌, ◌||◌, Option, none, some, List,
  [], ◌∷◌, ◌++◌, map, reverse, arith, ltb, leb, ◌==◌, if◌then◌else◌, within, leb→le, ltb→lt, ==_iff,
  Bool-cases, Option-cases, length, get_or, take, drop, replicate, all, any, retain, All,
  length-append, length-take, length-drop, length-replicate, length-map, All-append, Str, Bytes,
  codes, str_eq, str_eq_iff, str_eq_refl, utf8_char, as_bytes, len, is_empty, is_ascii_lower,
  is_ascii_upper, is_ascii_digit, is_ascii_alphanumeric, is_whitespace, contains, trim_start,
  trim_end, trim, strip_prefix, starts_with, ends_with, contains_str, split, split_once, join,
  ascii_lower, push_front, Result, ok, err, ◌>>=◌, ◌>>◌, ensure, ok_or, all_below, all_below_sound,
  bind-eq-ok, Result-cases,
}
use systemd_ops.Config.{OpsConfig}
use systemd_ops.Json.{Value, null, int, pos, str, object, opt_str, get, get_str, get_u64, unwrap_or}
use systemd_ops.Sha256.{hex, hmac_sha256}
use systemd_ops.Systemd.Clock.{unix_to_rfc3339}
use systemd_ops.Systemd.Names.{Manager, manager_parse, manager_str, manager_eq}
use systemd_ops.Token.Base64.{invalid_token, b64url, b64url_decode}
use systemd_ops.Token.Hex.{decode_hex, ct_eq}

-- `to_string().as_bytes()` and `serde_json::from_slice`.
pub record JsonText : Type 0 where
  pub to_text : Value → Bytes
  pub from_slice : Bytes → Option Value

pub data PlanClass : Type 0 where
  control author automation : PlanClass

pub class_str : PlanClass → Str
class_str control = codes "control"
class_str author = codes "author"
class_str automation = codes "automation"

pub class_parse : Str → Result PlanClass
class_parse s =
    if str_eq s (codes "control")
    then ok control
    else if str_eq s (codes "author")
    then ok author
    else if str_eq s (codes "automation")
    then ok automation
    else err (codes "unknown plan class '" ++ (s ++ codes "'"))

pub class_eq : PlanClass → PlanClass → Bool
class_eq control control = true
class_eq author author = true
class_eq automation automation = true
class_eq _ _ = false

pub record SealedPlan : Type 0 where
  pub class : PlanClass
  pub manager : Manager
  pub unit : Str
  pub issued_at : ℕ
  pub expires_at : ℕ
  pub origin_cwd : Option Str
  pub payload : Value

-- The JSON body that is signed.
pub body_of : SealedPlan → Value
body_of plan = object (
    (codes "class", str (class_str plan.class))
    ∷ (codes "manager", str (manager_str plan.manager))
    ∷ (codes "unit", str plan.unit)
    ∷ (codes "issued_at", int (pos plan.issued_at))
    ∷ (codes "expires_at", int (pos plan.expires_at))
    ∷ (codes "origin_cwd", opt_str plan.origin_cwd)
    ∷ (codes "payload", plan.payload)
    ∷ [])

abbrev pub token_version : Str
token_version = codes "v1"

-- `v1.<payload>.<mac>`
pub token_text : Bytes → Bytes → Str
token_text raw mac = token_version ++ (b'.' ∷ (b64url raw ++ (b'.' ∷ hex mac)))

pub parts3 : List Str → Option (Str × Str × Str)
parts3 (ver ∷ payload ∷ mac ∷ []) = some (ver, payload, mac)
parts3 _ = none

pub bad_mac : Str
bad_mac = codes "invalid plan token: bad mac"

pub other_manager : Manager → Manager → Str
other_manager of now =
    codes "plan token is for the "
    ++ (manager_str of ++ (codes " manager; current manager is " ++ manager_str now))

pub token_expired : ℕ → Str
token_expired at = codes "plan token expired at " ++ unix_to_rfc3339 at

-- The plan that a verified body holds.
pub plan_of : OpsConfig → ℕ → Value → Result SealedPlan
plan_of cfg now body = do
  class ← class_parse (unwrap_or (get_str body (codes "class")) [])
  manager ← ok_or (manager_parse (unwrap_or (get_str body (codes "manager")) [])) invalid_token
  ensure (manager_eq manager cfg.manager) (other_manager manager cfg.manager)
  expires_at ← ok_or (get_u64 body (codes "expires_at")) invalid_token
  ensure (leb now expires_at) (token_expired expires_at)
  unit ← ok_or (get_str body (codes "unit")) invalid_token
  ok (record {
    class = class;
    manager = manager;
    unit = unit;
    issued_at = unwrap_or (get_u64 body (codes "issued_at")) 0;
    expires_at = expires_at;
    origin_cwd = get_str body (codes "origin_cwd");
    payload = unwrap_or (get body (codes "payload")) null;
  })

-- The plan that `mint` seals; `now + cfg.plan_ttl_secs` is a sum of `u64`.
abbrev pub fresh_plan : OpsConfig → ℕ → PlanClass → Str → Option Str → Value → SealedPlan
fresh_plan cfg now class unit origin_cwd payload = record {
  class = class;
  manager = cfg.manager;
  unit = unit;
  issued_at = now;
  expires_at = (now + cfg.plan_ttl_secs) % 2 ^ 64;
  origin_cwd = origin_cwd;
  payload = payload;
}

module _ (json : JsonText) where
  unfoldable pub issue : Result Bytes → SealedPlan → Result Str
  issue key plan = do
    let raw = json.to_text (body_of plan)
    k ← key
    ok (token_text raw (hmac_sha256 k raw))

  unfoldable pub mint :
      OpsConfig
      → Result Bytes
      → ℕ
      → PlanClass
      → Str
      → Option Str
      → Value
      → Result (Str × SealedPlan)
  mint cfg key now class unit origin_cwd payload = do
    let plan = fresh_plan cfg now class unit origin_cwd payload
    token ← issue key plan
    ok (token, plan)

  -- The bytes of a token whose MAC is right.
  pub verified : Result Bytes → Str → Result Bytes
  verified key token = do
    parts ← ok_or (parts3 (split b'.' token)) invalid_token
    ensure (str_eq parts.0 token_version) invalid_token
    raw ← b64url_decode parts.1
    k ← key
    got ← decode_hex parts.2
    ensure (ct_eq (hmac_sha256 k raw) got) bad_mac
    ok raw

  pub parse : OpsConfig → Result Bytes → ℕ → Str → Result SealedPlan
  parse cfg key now token = do
    raw ← verified key token
    body ← ok_or (json.from_slice raw) invalid_token
    plan_of cfg now body

pub wrong_class : PlanClass → PlanClass → Str
wrong_class of expect =
    codes "plan class is "
    ++ (class_str of ++ (codes "; " ++ (class_str expect ++ codes " cannot apply it")))

pub require_class : SealedPlan → PlanClass → Result (Unit {0})
unfolding class_eq wrong_class
require_class plan expect = ensure (class_eq plan.class expect) (wrong_class plan.class expect)
