-- ===== src/Token/Plan/Seal.antt =====
-- A minted token parses back to its plan until it expires.
use systemd_ops.Base.{
  ℕ, ◌+◌, ◌*◌, ◌/◌, ◌%◌, ◌^◌, ◌≤◌, ◌<◌, ◌≡◌, refl, sym, ap, ◌∙◌, true, false, not, Option, none,
  some, [], ◌∷◌, ◌++◌, arith, ltb, leb, ◌==◌, All, Str, Bytes, IsByte, str_eq, str_eq_refl, split,
  ok, all_below, all_below_sound,
}
use systemd_ops.Config.{OpsConfig}
use systemd_ops.Json.{Value, as_str, opt_str, get_str, get_u64}
use systemd_ops.Sha256.{hex, hmac_sha256}
use systemd_ops.Sha256.Digest.{hmac_sha256-IsByte}
use systemd_ops.Systemd.Names.{Manager, system, user, manager_parse, manager_str, manager_eq}
use systemd_ops.Token.Base64.{b64_char, b64url}
use systemd_ops.Token.Base64.RoundTrip.{b64url_decode-b64url}
use systemd_ops.Token.Hex.Compare.{ct_eq_iff}
use systemd_ops.Token.Hex.RoundTrip.{decode_hex-hex}
use systemd_ops.Token.Plan.{
  JsonText, PlanClass, control, author, automation, fresh_plan, class_str, class_parse, SealedPlan,
  body_of, token_version, token_text, parts3, plan_of, issue, mint, verified, parse,
}

-- No character of the text is a dot.
abbrev pub NoDot : Str → Type 0
NoDot = All (λ c. (c == b'.') ≡ false)

split-dot : (a b : Str) → NoDot a → split b'.' (a ++ (b'.' ∷ b)) ≡ a ∷ split b'.' b
unfolding split
split-dot [] b h = refl
split-dot (c ∷ a) b h = rw (h.0, split-dot a b h.1)

split-NoDot : (a : Str) → NoDot a → split b'.' a ≡ a ∷ []
unfolding split
split-NoDot [] h = refl
split-NoDot (c ∷ a) h = rw (h.0, split-NoDot a h.1)

b64_no_dot_table : all_below 64 (λ n. not (b64_char n == b'.')) ≡ true
unfolding all_below b64_char
b64_no_dot_table = refl

b64_char-no_dot : (n : ℕ) → n < 64 → (b64_char n == b'.') ≡ false
b64_char-no_dot n h = let p = all_below_sound 64 _ n b64_no_dot_table h in ground arith

b64url-NoDot : (b : Bytes) → All IsByte b → NoDot (b64url b)
unfolding b64url
b64url-NoDot [] h = tt
b64url-NoDot (b0 ∷ []) h = (
  b64_char-no_dot (b0 / 4) (omega arith),
  (b64_char-no_dot (b0 % 4 * 16 + 0 / 16) (omega arith), tt),
)
b64url-NoDot (b0 ∷ b1 ∷ []) h = (
  b64_char-no_dot (b0 / 4) (omega arith),
  (
    b64_char-no_dot (b0 % 4 * 16 + b1 / 16) (omega arith),
    (b64_char-no_dot (b1 % 16 * 4 + 0 / 64) (omega arith), tt),
  ),
)
b64url-NoDot (b0 ∷ b1 ∷ b2 ∷ rest) h = (
  b64_char-no_dot (b0 / 4) (omega arith),
  (
    b64_char-no_dot (b0 % 4 * 16 + b1 / 16) (omega arith),
    (
      b64_char-no_dot (b1 % 16 * 4 + b2 / 64) (omega arith),
      (b64_char-no_dot (b2 % 64) (omega arith), b64url-NoDot rest h.1.1.1),
    ),
  ),
)

hex-NoDot : (b : Bytes) → All IsByte b → NoDot (hex b)
unfolding hex
hex-NoDot [] h = tt
hex-NoDot (x ∷ b) h = (ground arith, (ground arith, hex-NoDot b h.1))

parts3-token_text :
    (raw mac : Bytes)
    → All IsByte raw
    → All IsByte mac
    → parts3 (split b'.' (token_text raw mac)) ≡ some (token_version, b64url raw, hex mac)
unfolding token_text
parts3-token_text raw mac hr hm =
    rw
      (
        split-dot token_version _ (refl, (refl, tt)),
        split-dot (b64url raw) (hex mac) (b64url-NoDot raw hr),
        split-NoDot (hex mac) (hex-NoDot mac hm),
      )
      (unfold parts3 in refl)

-- A token verifies under the key that signed it.
verified-token_text :
    (json : JsonText) (k raw : Bytes)
    → All IsByte raw
    → verified json (ok k) (token_text raw (hmac_sha256 k raw)) ≡ ok raw
unfolding verified
verified-token_text json k raw h =
    let mac = hmac_sha256 k raw in
    let hm = hmac_sha256-IsByte k raw in
    rw (
      parts3-token_text raw mac h hm,
      str_eq_refl token_version,
      b64url_decode-b64url raw h,
      decode_hex-hex mac hm,
      (ct_eq_iff mac mac hm hm).1 refl,
    )

class_parse-str : (c : PlanClass) → class_parse (class_str c) ≡ ok c
unfolding class_parse class_str str_eq
class_parse-str control = refl
class_parse-str author = refl
class_parse-str automation = refl

manager_parse-str : (m : Manager) → manager_parse (manager_str m) ≡ some m
unfolding manager_parse manager_str str_eq
manager_parse-str system = refl
manager_parse-str user = refl

manager_eq_refl : (m : Manager) → manager_eq m m ≡ true
unfolding manager_eq
manager_eq_refl m = ground arith

as_str-opt_str : (o : Option Str) → as_str (opt_str o) ≡ o
as_str-opt_str none = refl
as_str-opt_str (some s) = refl

plan_of-body_of :
    (cfg : OpsConfig) (now : ℕ) (plan : SealedPlan)
    → plan.manager ≡ cfg.manager
    → now ≤ plan.expires_at
    → plan.issued_at < 2 ^ 64
    → plan.expires_at < 2 ^ 64
    → plan_of cfg now (body_of plan) ≡ ok plan
unfolding plan_of body_of get_str get_u64
plan_of-body_of cfg now plan m live hi he =
    let i : ltb plan.issued_at (2 ^ 64) ≡ true = ground arith in
    let e : ltb plan.expires_at (2 ^ 64) ≡ true = ground arith in
    let l : leb now plan.expires_at ≡ true = ground arith in
    rw (
      class_parse-str plan.class,
      manager_parse-str plan.manager,
      ← m,
      manager_eq_refl plan.manager,
      i,
      e,
      l,
      as_str-opt_str plan.origin_cwd,
    )

parse-token_text :
    (json : JsonText) (cfg : OpsConfig) (k raw : Bytes) (later : ℕ) (body : Value)
    → All IsByte raw
    → json.from_slice raw ≡ some body
    → parse json cfg (ok k) later (token_text raw (hmac_sha256 k raw)) ≡ plan_of cfg later body
unfolding parse
parse-token_text json cfg k raw later body bytes reads =
    rw (verified-token_text json k raw bytes, reads)

-- A minted token verifies and gives back the very plan, with its class, unit and payload, to the
-- same manager and key until the plan's lifetime is over. The premises on `json` are that it writes
-- bytes and reads back the body that it wrote.
pub parse-mint :
    (json : JsonText) (cfg : OpsConfig) (k : Bytes) (now later : ℕ) (class : PlanClass) (unit : Str)
    (origin : Option Str) (payload : Value) {token : Str} {plan : SealedPlan}
    → json.from_slice (json.to_text (body_of plan)) ≡ some (body_of plan)
    → All IsByte (json.to_text (body_of plan))
    → now + cfg.plan_ttl_secs < 2 ^ 64
    → later ≤ now + cfg.plan_ttl_secs
    → mint json cfg (ok k) now class unit origin payload ≡ ok (token, plan)
    → parse json cfg (ok k) later token ≡ ok plan
unfolding mint issue
parse-mint json cfg k now later class unit origin payload {token} {plan} reads bytes fits live h =
    let p = fresh_plan cfg now class unit origin payload in
    let text = λ (x : SealedPlan).
      token_text (json.to_text (body_of x)) (hmac_sha256 k (json.to_text (body_of x))) in
    let is_plan : p ≡ plan = cc in
    let is_token : text p ≡ token = cc in
    ap (parse json cfg (ok k) later) (sym is_token ∙ ap text is_plan)
    ∙ parse-token_text json cfg k (json.to_text (body_of plan)) later (body_of plan) bytes reads
    ∙ ap (λ x. plan_of cfg later (body_of x)) (sym is_plan)
    ∙ plan_of-body_of cfg later p refl (omega arith) (omega arith) (omega arith)
    ∙ ap ok is_plan
