-- ===== src/Operations/Fields.antt =====
-- The validators of fields in src/operations.rs, and its reader of schedules.
pub mod Laws
pub mod Tags
use systemd_ops.Base.{
  ℕ, zero, suc, ◌+◌, ◌-◌, ◌*◌, ◌/◌, ◌%◌, ◌^◌, ◌≤◌, ◌<◌, min, max, String, ◌≡◌, refl, sym, ap, ap₂,
  ◌∙◌, subst, ◌≢◌, ◌↔◌, ◌⊎◌, inl, inr, Bool, true, false, not, ◌&&◌, ◌||◌, Option, none, some, List,
  [], ◌∷◌, ◌++◌, map, reverse, arith, ltb, leb, ◌==◌, if◌then◌else◌, within, leb→le, ltb→lt, ==_iff,
  Bool-cases, Option-cases, length, get_or, take, drop, replicate, all, any, retain, All,
  length-append, length-take, length-drop, length-replicate, length-map, All-append, Str, Bytes,
  IsByte, codes, str_eq, str_eq_iff, str_eq_refl, utf8_char, as_bytes, len, is_empty,
  is_ascii_lower, is_ascii_upper, is_ascii_digit, is_ascii_alphanumeric, is_whitespace, contains,
  trim_start, trim_end, trim, strip_prefix, starts_with, ends_with, contains_str, split, split_once,
  lines, join, ascii_lower, push_front, Result, ok, err, ◌>>=◌, ◌>>◌, ensure, ok_or, all_below,
  all_below_sound, bind-eq-ok, Result-cases,
}
use systemd_ops.Json.{
  Value, null, bool, int, float, str, array, obj, get, get_str, as_str, as_bool, and_then,
  unwrap_or, list_of, is_null,
}

pub data Kind : Type 0 where
  simple oneshot oneshot_linger : Kind

unfoldable pub kind_parse : Str → Result Kind
kind_parse s =
    if str_eq s (codes "simple")
    then ok simple
    else if str_eq s (codes "oneshot")
    then ok oneshot
    else if str_eq s (codes "oneshot-linger")
    then ok oneshot_linger
    else err (codes "unknown kind '" ++ (s ++ codes "' (simple, oneshot, oneshot-linger)"))

unfoldable pub is_time_char : ℕ → Bool
is_time_char c = is_ascii_alphanumeric c || contains (codes " :+-*/,._@") c

unfoldable pub validate_time_word : Str → Str → Result (Unit {0})
validate_time_word label spec = do
  ensure (not (is_empty spec) && leb (len spec) 64)
      (label ++ codes " must be 1..64 characters of systemd time/calendar syntax")
  ensure (all is_time_char spec)
      (codes "'" ++ (spec ++ (codes "' is not valid systemd time/calendar syntax for " ++ label)))

-- `c.is_ascii_alphanumeric() || c == '_' || (i > 0 && c == '-')` at the first place, and behind it.
abbrev pub is_ident_start : ℕ → Bool
is_ident_start c = is_ascii_alphanumeric c || c == b'_'

abbrev pub is_ident_char : ℕ → Bool
is_ident_char c = is_ascii_alphanumeric c || (c == b'_' || c == b'-')

pub is_ident : Str → Bool
is_ident [] = false
is_ident (c ∷ s) = leb (len (c ∷ s)) 64 && (is_ident_start c && all is_ident_char s)

pub validate_ident : Str → Str → Result (Unit {0})
validate_ident label s =
    ensure (is_ident s) (label ++ (codes " '" ++ (s ++ codes "' is not a valid identifier")))

pub is_field_text : ℕ → Str → Bool
is_field_text max_len s = leb (len s) max_len && (not (contains s 10) && not (contains s 0))

pub field_of_text : Str → ℕ → Str → Str → Result (Option Str)
field_of_text label max_len max_text s =
    if is_empty s
    then ok none
    else (ensure (is_field_text max_len s)
          (label ++ (codes " must be 1.." ++ (max_text ++ codes " characters with no newlines")))
        >> ok (some s))

-- The bound `max` comes with its print.
unfoldable pub text_field : Str → Option Str → ℕ → Str → Result (Option Str)
text_field label none max_len max_text = ok none
text_field label (some s) max_len max_text = field_of_text label max_len max_text (trim s)

unfoldable pub has_tag : List Str → Str → Bool
has_tag tags s = any (λ t. str_eq t s) tags

unfoldable pub is_tag : Str → Bool
is_tag s = not (is_empty s) && (leb (len s) 64 && (not (contains s b',') && not (contains s 10)))

unfoldable pub push_tag : List Str → Str → List Str
push_tag tags s = if has_tag tags s then tags else tags ++ s ∷ []

-- The loop over the items, from the tags read so far.
unfoldable pub tag_items : List Value → List Str → Result (List Str)
tag_items [] tags = ok tags
tag_items (item ∷ rest) tags = do
  text ← ok_or (as_str item) (codes "tags must be strings")
  ensure (is_tag (trim text)) (codes "each tag must be 1..64 characters without commas or newlines")
  tag_items rest (push_tag tags (trim text))

abbrev pub as_array : Value → Option (List Value)
as_array (array vs) = some (list_of vs)
as_array _ = none

unfoldable pub parse_tags : Option Value → Result (List Str)
parse_tags none = ok []
parse_tags (some v) = do
  arr ← ok_or (as_array v) (codes "tags must be an array of strings")
  ensure (leb (length arr) 32) (codes "tags is limited to 32 entries")
  tag_items arr []

unfoldable pub string_items : Str → List Value → Result (List Str)
string_items label [] = ok []
string_items label (item ∷ rest) = do
  s ← ok_or (as_str item) (label ++ codes " must be strings")
  ensure (not (is_empty s) && leb (len s) 256)
      (codes "each " ++ (label ++ codes " entry must be 1..256 characters"))
  out ← string_items label rest
  ok (s ∷ out)

unfoldable pub parse_string_list : Str → Option Value → Result (List Str)
parse_string_list label none = ok []
parse_string_list label (some v) = do
  arr ← ok_or (as_array v) (label ++ codes " must be an array of strings")
  ensure (leb (length arr) 32) (label ++ codes " is limited to 32 entries")
  string_items label arr

pub data Schedule : Type 0 where
  interval :
      (on_boot_sec : Str) (on_unit_active_sec on_unit_inactive_sec : Option Str) (persistent : Bool)
      (accuracy_sec : Option Str)
      → Schedule
  calendar : (on_calendar : Str) (persistent : Bool) (accuracy_sec : Option Str) → Schedule

abbrev pub is_obj : Value → Bool
is_obj (obj fs) = true
is_obj _ = false

abbrev pub is_some {ℓ} : {A : Type ℓ} → Option A → Bool
is_some none = false
is_some (some a) = true

-- `if let Some(value) = v { validate_time_word(label, value)?; }`
unfoldable pub check_time : Str → Option Str → Result (Unit {0})
check_time label none = ok tt
check_time label (some s) = validate_time_word label s

pub schedule_interval : Value → Bool → Option Str → Result (Option Schedule)
schedule_interval v persistent accuracy = do
  on_boot ← ok_or (get_str v (codes "on_boot_sec")) (codes "schedule.on_boot_sec is required")
  let on_active = get_str v (codes "on_unit_active_sec")
  let on_inactive = get_str v (codes "on_unit_inactive_sec")
  ensure (is_some on_active || is_some on_inactive)
      (codes "schedule interval requires on_unit_active_sec or on_unit_inactive_sec")
  validate_time_word (codes "schedule.on_boot_sec") on_boot
  check_time (codes "schedule.on_unit_active_sec") on_active
  check_time (codes "schedule.on_unit_inactive_sec") on_inactive
  ok (some (interval on_boot on_active on_inactive persistent accuracy))

unfoldable pub schedule_calendar : Value → Bool → Option Str → Result (Option Schedule)
schedule_calendar v persistent accuracy = do
  on_calendar ← ok_or (get_str v (codes "on_calendar")) (codes "schedule.on_calendar is required")
  validate_time_word (codes "schedule.on_calendar") on_calendar
  ok (some (calendar on_calendar persistent accuracy))

unfoldable pub schedule_of_type : Str → Value → Bool → Option Str → Result (Option Schedule)
schedule_of_type ty v persistent accuracy =
    if str_eq ty (codes "interval")
    then schedule_interval v persistent accuracy
    else if str_eq ty (codes "calendar")
    then schedule_calendar v persistent accuracy
    else err (codes "unknown schedule.type '" ++ (ty ++ codes "' (interval, calendar)"))

-- A schedule of a oneshot operation.
unfoldable pub schedule_object : Value → Result (Option Schedule)
schedule_object v = do
  ensure (is_obj v) (codes "schedule must be an object")
  ty ← ok_or (get_str v (codes "type")) (codes "schedule.type is required (interval, calendar)")
  let persistent = unwrap_or (and_then (get v (codes "persistent")) as_bool) true
  let accuracy = get_str v (codes "accuracy_sec")
  check_time (codes "schedule.accuracy_sec") accuracy
  schedule_of_type ty v persistent accuracy

unfoldable pub schedule_for : Kind → Value → Result (Option Schedule)
schedule_for simple v =
    err (codes "simple operations cannot have a schedule; use oneshot for a timer pair")
schedule_for oneshot_linger v = err (codes "oneshot-linger operations cannot have a schedule")
schedule_for oneshot v = schedule_object v

unfoldable pub parse_schedule : Option Value → Kind → Result (Option Schedule)
parse_schedule none kind = ok none
parse_schedule (some v) kind = if is_null v then ok none else schedule_for kind v
