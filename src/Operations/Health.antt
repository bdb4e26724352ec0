-- ===== src/Operations/Health.antt =====
-- The health of an operation in src/operations.rs, read from its view.
pub mod Laws
use systemd_ops.Base.{
  ℕ, zero, suc, ◌+◌, ◌-◌, ◌*◌, ◌/◌, ◌%◌, ◌^◌, ◌≤◌, ◌<◌, min, max, String, ◌≡◌, refl, sym, ap, ap₂,
  ◌∙◌, subst, ◌≢◌, ◌↔◌, ◌⊎◌, inl, inr, Bool, true, false, not, ◌&&◌, ◌||◌, Option, none, some, List,
  [], ◌∷◌, ◌++◌, map, reverse, arith, ltb, leb, ◌==◌, if◌then◌else◌, within, leb→le, ltb→lt, ==_iff,
  Bool-cases, Option-cases, length, get_or, take, drop, replicate, all, any, retain, All,
  length-append, length-take, length-drop, length-replicate, length-map, All-append, Str, Bytes,
  IsByte, codes, str_eq, str_eq_iff, str_eq_refl, utf8_char, as_bytes, len, is_empty,
  is_ascii_lower, is_ascii_upper, is_ascii_digit, is_ascii_alphanumeric, is_whitespace, contains,
  trim_start, trim_end, trim, strip_prefix, starts_with, ends_with, contains_str, split, split_once,
  lines, join, ascii_lower, push_front, Result, ok, err, ◌>>=◌, ◌>>◌, ensure, ok_or, all_below,
  all_below_sound, bind-eq-ok, Result-cases,
}
use systemd_ops.Json.{
  Value, null, bool, int, float, str, array, obj, get, get_str, as_str, as_bool, and_then,
  unwrap_or, is_null,
}

pub data Health : Type 0 where
  healthy failed unknown : Health

pub health_str : Health → Str
health_str healthy = codes "healthy"
health_str failed = codes "failed"
health_str unknown = codes "unknown"

pub data Basis : Type 0 where
  lifecycle never_run not_scheduled last_result : Basis

pub basis_str : Basis → Str
basis_str lifecycle = codes "lifecycle"
basis_str never_run = codes "never-run"
basis_str not_scheduled = codes "not-scheduled"
basis_str last_result = codes "last-result"

unfoldable pub enablement_on : Str → Bool
enablement_on s =
    str_eq s (codes "enabled") || (str_eq s (codes "enabled-runtime") || str_eq s (codes "static"))

abbrev pub some_and {ℓ} : {A : Type ℓ} → Option A → (A → Bool) → Bool
some_and none f = false
some_and (some a) f = f a

unfoldable pub enablement_is_on : Value → Bool
enablement_is_on v = some_and (as_str v) enablement_on

abbrev pub is_trigger : Option Value → Bool
is_trigger none = false
is_trigger (some null) = false
is_trigger (some (str s)) = not (is_empty s) && not (str_eq s (codes "n/a"))
is_trigger (some _) = true

unfoldable pub has_future_trigger : Value → Bool
has_future_trigger view = is_trigger (get view (codes "next"))

unfoldable pub is_timer_operation : Value → Bool
is_timer_operation view =
    some_and (get_str view (codes "activation")) (λ s. str_eq s (codes "timer"))

unfoldable pub is_missing : Value → Bool
is_missing view = some_and (and_then (get view (codes "missing")) as_bool) (λ b. b)

-- `view.get(key).map(Value::is_null).unwrap_or(true)`.
pub is_absent : Value → Str → Bool
is_absent view key = unwrap_or (and_then (get view key) (λ v. some (is_null v))) true

-- The kinds that the code tells apart.
pub data KindCase : Type 0 where
  simple oneshot other : KindCase

abbrev pub case_of : Option Str → KindCase
case_of none = other
case_of (some s) =
    if str_eq s (codes "simple")
    then simple
    else if str_eq s (codes "oneshot") || str_eq s (codes "oneshot-linger")
    then oneshot
    else other

unfoldable pub kind_case : Value → KindCase
kind_case view = case_of (get_str view (codes "kind"))

abbrev pub is_oneshot : KindCase → Bool
is_oneshot oneshot = true
is_oneshot _ = false

unfoldable pub is_enabled : Value → Bool
is_enabled view = enablement_is_on (unwrap_or (get view (codes "enablement")) null)

pub is_wanted_inactive_timer : Value → Bool
is_wanted_inactive_timer view =
    not (is_missing view)
    && (is_oneshot (kind_case view)
        && (is_timer_operation view && (is_enabled view && not (has_future_trigger view))))

pub never : Value → Bool
never view = is_absent view (codes "last_result") && is_absent view (codes "last")

pub succeeded : Value → Bool
succeeded view = some_and (get_str view (codes "last_result")) (λ s. str_eq s (codes "success"))

-- Whether a state word, "" where there is none, is the one given.
pub word_is : Value → Str → Str → Bool
word_is view key word = str_eq (unwrap_or (get_str view key) []) word

pub health_in : KindCase → Value → Health
health_in simple view =
    if word_is view (codes "state") (codes "failed") || word_is view (codes "sub") (codes "failed")
    then failed
    else if word_is view (codes "state") (codes "active")
        && word_is view (codes "sub") (codes "running")
    then healthy
    else if is_enabled view
    then failed
    else unknown
health_in oneshot view =
    if never view
    then unknown
    else if not (succeeded view) || word_is view (codes "state") (codes "failed")
    then failed
    else if is_timer_operation view
    then (if is_enabled view && has_future_trigger view then healthy else unknown)
    else healthy
health_in other view =
    if word_is view (codes "state") (codes "failed")
    then failed
    else if word_is view (codes "state") (codes "active")
    then healthy
    else unknown

abbrev pub health_eq : Health → Health → Bool
health_eq healthy healthy = true
health_eq failed failed = true
health_eq unknown unknown = true
health_eq _ _ = false

pub operation_health : Value → Health
operation_health view = if is_missing view then unknown else health_in (kind_case view) view

pub basis_in : KindCase → Value → Basis
basis_in oneshot view =
    if never view
    then never_run
    else if is_timer_operation view && (succeeded view && health_eq (operation_health view) unknown)
    then not_scheduled
    else last_result
basis_in _ view = lifecycle

pub health_basis : Value → Basis
health_basis view = basis_in (kind_case view) view
