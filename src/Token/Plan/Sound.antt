-- ===== src/Token/Plan/Sound.antt =====
-- What holds of every token that `parse` accepts.
use systemd_ops.Base.{
  ℕ, ◌+◌, ◌*◌, ◌%◌, ◌≤◌, ◌<◌, ◌≡◌, refl, sym, ap, ◌∙◌, subst, inl, inr, Bool, true, Option, none,
  some, List, [], ◌∷◌, arith, ◌==◌, Option-cases, All, Str, Bytes, IsByte, codes, str_eq_iff,
  as_bytes, len, split, Result, ok, err, ◌>>=◌, ◌>>◌, ensure, ok_or, bind-eq-ok, Result-cases,
}
use systemd_ops.Config.{OpsConfig}
use systemd_ops.Json.{Value, null, get, get_str, get_u64, unwrap_or}
use systemd_ops.Sha256.{hmac_sha256}
use systemd_ops.Systemd.Names.{Manager, manager_parse, manager_eq}
use systemd_ops.Token.Base64.{invalid_token, b64url_decode}
use systemd_ops.Token.Hex.{nibble, decode_pairs, decode_hex, ct_eq}
use systemd_ops.Token.Hex.Compare.{ct_eq_iff}
use systemd_ops.Sha256.Digest.{hmac_sha256-IsByte}
use systemd_ops.Token.Plan.{
  JsonText, class_parse, SealedPlan, token_version, parts3, plan_of, verified, parse, bad_mac,
}

ensure_inv : (b : Bool) (m : Str) {x : Unit {0}} → ensure b m ≡ ok x → b ≡ true
ensure_inv b m h = ground arith

ok_or_inv : {A : Type 0} (o : Option A) (m : Str) {a : A} → ok_or o m ≡ ok a → o ≡ some a
ok_or_inv none m h = absurd (cc)
ok_or_inv (some b) m h = cc

nibble-lt : (c : ℕ) {v : ℕ} → nibble c ≡ ok v → v < 16
unfolding nibble
nibble-lt c h = ground arith

decode_pairs-IsByte : (s : Bytes) {b : Bytes} → decode_pairs s ≡ ok b → All IsByte b
unfolding decode_pairs
decode_pairs-IsByte [] {b} h = let same : [] ≡ b = cc in subst (All IsByte) same tt
decode_pairs-IsByte (c ∷ []) h = absurd (cc)
decode_pairs-IsByte (hi ∷ lo ∷ rest) {b} h =
    let (x, ex, h1) = bind-eq-ok (nibble hi) _ h in
    let (l, el, h2) = bind-eq-ok (nibble lo) _ h1 in
    let (tail, et, h3) = bind-eq-ok (decode_pairs rest) _ h2 in
    let bound : x * 16 % 256 + l < 256 = omega (arith, nibble-lt hi ex, nibble-lt lo el) in
    let same : (x * 16 % 256 + l) ∷ tail ≡ b = cc in
    subst (All IsByte) same (bound, decode_pairs-IsByte rest et)

decode_hex-IsByte : (s : Str) {b : Bytes} → decode_hex s ≡ ok b → All IsByte b
unfolding decode_hex
decode_hex-IsByte s h =
    let (x, e, h1) = bind-eq-ok (ensure (len s % 2 == 0) invalid_token) _ h in
    decode_pairs-IsByte (as_bytes s) h1

-- The parts of a token that verifies: version, encoded body and the HMAC of the body, in hex.
pub record Signed (k : Bytes) (token : Str) (raw : Bytes) : Type 0 where
  pub body : Str
  pub mac : Str
  pub parts : split b'.' token ≡ token_version ∷ body ∷ mac ∷ []
  pub decoded : b64url_decode body ≡ ok raw
  pub authentic : decode_hex mac ≡ ok (hmac_sha256 k raw)

-- What the accepted body says.
pub record Accepted (cfg : OpsConfig) (now : ℕ) (body : Value) (plan : SealedPlan) : Type 0 where
  pub class_is : class_parse (unwrap_or (get_str body (codes "class")) []) ≡ ok plan.class
  pub unit_is : get_str body (codes "unit") ≡ some plan.unit
  pub expires_is : get_u64 body (codes "expires_at") ≡ some plan.expires_at
  pub manager_signed :
      manager_parse (unwrap_or (get_str body (codes "manager")) []) ≡ some cfg.manager
  pub manager_is : plan.manager ≡ cfg.manager
  pub issued_is : plan.issued_at ≡ unwrap_or (get_u64 body (codes "issued_at")) 0
  pub origin_is : plan.origin_cwd ≡ get_str body (codes "origin_cwd")
  pub payload_is : plan.payload ≡ unwrap_or (get body (codes "payload")) null
  pub live : now ≤ plan.expires_at

manager_eq-eq : (a b : Manager) → manager_eq a b ≡ true → a ≡ b
unfolding manager_eq
manager_eq-eq a b h = ground arith

plan_of-Accepted :
    (cfg : OpsConfig) (now : ℕ) (body : Value) {plan : SealedPlan}
    → plan_of cfg now body ≡ ok plan
    → Accepted cfg now body plan
unfolding plan_of
plan_of-Accepted cfg now body {plan} h =
    let same = manager_eq-eq plan.manager cfg.manager (ground arith) in
    let signed : manager_parse (unwrap_or (get_str body (codes "manager")) []) ≡ some plan.manager =
      ground arith in
    record {
      class_is = ground arith;
      unit_is = ground arith;
      expires_is = ground arith;
      manager_signed = signed ∙ ap some same;
      manager_is = same;
      issued_is = ground arith;
      origin_is = ground arith;
      payload_is = ground arith;
      live = ground arith;
    }

parts3_inv : (ps : List Str) {v b m : Str} → parts3 ps ≡ some (v, b, m) → ps ≡ v ∷ b ∷ m ∷ []
unfolding parts3
parts3_inv (v ∷ b ∷ m ∷ []) h = ground arith
parts3_inv _ h = ground arith

-- A MAC that compares equal is the HMAC of the body.
mac-authentic :
    (k raw : Bytes) (m : Str) {x : Bytes}
    → (decode_hex m >>= λ got. ensure (ct_eq (hmac_sha256 k raw) got) bad_mac >> ok raw) ≡ ok x
    → decode_hex m ≡ ok (hmac_sha256 k raw)
mac-authentic k raw m h = elim (Result-cases (decode_hex m)) [
  | inl (got, e) ↦
      let same : ct_eq (hmac_sha256 k raw) got ≡ true = ground arith in
      e
      ∙ ap ok (
          sym (
            (ct_eq_iff (hmac_sha256 k raw) got (hmac_sha256-IsByte k raw) (decode_hex-IsByte m e)).0
              same))
  | inr (_, e) ↦ absurd (ground arith)
]

Signed-parts :
    (json : JsonText) (k : Bytes) (token v b m : Str) {raw : Bytes}
    → parts3 (split b'.' token) ≡ some (v, b, m)
    → verified json (ok k) token ≡ ok raw
    → Signed k token raw
unfolding verified
Signed-parts json k token v b m {raw} e h =
    let version : v ≡ token_version = ground (arith, str_eq_iff v token_version) in
    let decoded : b64url_decode b ≡ ok raw = ground arith in
    record {
      body = b;
      mac = m;
      parts = parts3_inv (split b'.' token) e ∙ ap (λ x. x ∷ b ∷ m ∷ []) version;
      decoded = decoded;
      authentic = mac-authentic k raw m {x = raw} (ground arith);
    }

verified-Signed :
    (json : JsonText) (key : Result Bytes) (token : Str) {raw : Bytes}
    → verified json key token ≡ ok raw
    → (k : Bytes) × (key ≡ ok k) × Signed k token raw
verified-Signed json (ok k) token {raw} h = elim (Option-cases (parts3 (split b'.' token))) [
  | inl e ↦ absurd (unfold verified in ground arith)
  | inr ((v, b, m), e) ↦ (k, refl, Signed-parts json k token v b m e h)
]
verified-Signed json (err e) token h = absurd (unfold verified in ground arith)

-- Whatever token is accepted was signed with the key, its signed body names the manager in use, it
-- has not expired, and its plan has the class, unit, times, origin and payload of the signed body.
pub parse-Signed :
    (json : JsonText) (cfg : OpsConfig) (key : Result Bytes) (now : ℕ) (token : Str)
    {plan : SealedPlan}
    → parse json cfg key now token ≡ ok plan
    → (k raw : Bytes) × (body : Value) × (key ≡ ok k)
      × Signed k token raw
      × (json.from_slice raw ≡ some body)
      × Accepted cfg now body plan
unfolding parse
parse-Signed json cfg key now token h =
    let (raw, v, h1) = bind-eq-ok (verified json key token) _ h in
    let (body, r, h2) = bind-eq-ok (ok_or (json.from_slice raw) invalid_token) _ h1 in
    let (k, e, s) = verified-Signed json key token v in
    (
      k,
      raw,
      body,
      e,
      s,
      ok_or_inv (json.from_slice raw) invalid_token r,
      plan_of-Accepted cfg now body h2,
    )
