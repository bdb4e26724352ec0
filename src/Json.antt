-- ===== src/Json.antt =====
-- The values of serde_json that the source builds and reads, and the envelope of src/json.rs. A
-- number is an integer, or another number by its text, of which the source never asks the value.
pub mod Envelope
mod Tests
use systemd_ops.Base.{
  ℕ, zero, suc, ◌+◌, ◌-◌, ◌*◌, ◌/◌, ◌%◌, ◌^◌, ◌≤◌, ◌<◌, min, max, String, ◌≡◌, refl, sym, ap, ◌∙◌,
  subst, ◌≢◌, ◌↔◌, ◌⊎◌, inl, inr, Bool, true, false, not, ◌&&◌, ◌||◌, Option, none, some, List, [],
  ◌∷◌, ◌++◌, map, reverse, arith, ltb, leb, ◌==◌, if◌then◌else◌, within, leb→le, ltb→lt, ==_iff,
  Bool-cases, Option-cases, length, get_or, take, drop, replicate, all, any, retain, All,
  length-append, length-take, length-drop, length-replicate, length-map, All-append, Str, Bytes,
  codes, str_eq, str_eq_iff, str_eq_refl, utf8_char, as_bytes, len, is_empty, is_ascii_lower,
  is_ascii_upper, is_ascii_digit, is_ascii_alphanumeric, is_whitespace, contains, trim_start,
  trim_end, trim, strip_prefix, starts_with, ends_with, contains_str, split, split_once, join,
  ascii_lower, Result, ok, err, ◌>>=◌, ◌>>◌, ensure, ok_or, bind-eq-ok, Result-cases,
}

-- `negsuc n` is -(n + 1).
pub data ℤ : Type 0 where
  pos : ℕ → ℤ
  negsuc : ℕ → ℤ

-- An object is its fields in order, with the first of a key in force.
mutual
  pub data Value : Type 0 where
    null : Value
    bool : Bool → Value
    int : ℤ → Value
    float : Str → Value
    str : Str → Value
    array : Items → Value
    obj : Fields → Value

  pub data Items : Type 0 where
    nil : Items
    cons : Value → Items → Items

  pub data Fields : Type 0 where
    end : Fields
    field : Str → Value → Fields → Fields

pub lookup : Str → Fields → Option Value
lookup key end = none
lookup key (field k v fs) = let rest = lookup key fs in if str_eq k key then some v else rest

-- `value.get(key)`.
unfoldable pub get : Value → Str → Option Value
unfolding lookup str_eq
get (obj fs) key = lookup key fs
get _ key = none

-- `Value::as_str`, `as_bool`, `as_u64`, `as_i64`, `is_null`.
abbrev pub as_str : Value → Option Str
as_str (str s) = some s
as_str _ = none

abbrev pub as_bool : Value → Option Bool
as_bool (bool b) = some b
as_bool _ = none

abbrev pub as_u64 : Value → Option ℕ
as_u64 (int (pos n)) = if ltb n (2 ^ 64) then some n else none
as_u64 _ = none

abbrev pub as_i64 : Value → Option ℤ
as_i64 (int (pos n)) = if ltb n (2 ^ 63) then some (pos n) else none
as_i64 (int (negsuc n)) = if ltb n (2 ^ 63) then some (negsuc n) else none
as_i64 _ = none

abbrev pub is_null : Value → Bool
is_null null = true
is_null _ = false

abbrev pub and_then {ℓ κ} : {A : Type ℓ} {B : Type κ} → Option A → (A → Option B) → Option B
and_then none f = none
and_then (some a) f = f a

abbrev pub unwrap_or {ℓ} : {A : Type ℓ} → Option A → A → A
unwrap_or none d = d
unwrap_or (some a) d = a

-- `value.get(key).and_then(Value::as_str)`.
unfoldable pub get_str : Value → Str → Option Str
unfolding get
get_str v key = and_then (get v key) as_str

unfoldable pub get_u64 : Value → Str → Option ℕ
unfolding get
get_u64 v key = and_then (get v key) as_u64

-- `json!({ .. })`, with the fields in the order written.
abbrev pub fields : List (Str × Value) → Fields
fields [] = end
fields ((k, v) ∷ rest) = field k v (fields rest)

abbrev pub object : List (Str × Value) → Value
object l = obj (fields l)

abbrev pub opt_str : Option Str → Value
opt_str none = null
opt_str (some s) = str s

abbrev pub items : List Value → Items
items [] = nil
items (v ∷ vs) = cons v (items vs)

abbrev pub list_of : Items → List Value
list_of nil = []
list_of (cons v vs) = v ∷ list_of vs
