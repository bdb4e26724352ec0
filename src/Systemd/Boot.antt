-- ===== src/Systemd/Boot.antt =====
-- The readers of `systemd-analyze` output in src/systemd.rs: `strip_tree_prefix`,
-- `parse_critical_chain` and `parse_blame`.
pub mod Laws
pub mod Stripped
use systemd_ops.Base.{
  ℕ, zero, suc, ◌+◌, ◌-◌, ◌*◌, ◌/◌, ◌%◌, ◌^◌, ◌≤◌, ◌<◌, min, max, String, ◌≡◌, refl, sym, ap, ap₂,
  ◌∙◌, subst, ◌≢◌, ◌↔◌, ◌⊎◌, inl, inr, Bool, true, false, not, ◌&&◌, ◌||◌, Option, none, some, List,
  [], ◌∷◌, ◌++◌, map, reverse, arith, ltb, leb, ◌==◌, if◌then◌else◌, within, leb→le, ltb→lt, ==_iff,
  Bool-cases, Option-cases, length, get_or, take, drop, replicate, all, any, retain, All,
  length-append, length-take, length-drop, length-replicate, length-map, All-append, Str, Bytes,
  IsByte, codes, str_eq, str_eq_iff, str_eq_refl, utf8_char, as_bytes, len, is_empty,
  is_ascii_lower, is_ascii_upper, is_ascii_digit, is_ascii_alphanumeric, is_whitespace, contains,
  trim_start, trim_end, trim, strip_prefix, starts_with, ends_with, contains_str, split, split_once,
  lines, join, ascii_lower, push_front, Result, ok, err, ◌>>=◌, ◌>>◌, ensure, ok_or, all_below,
  all_below_sound, bind-eq-ok, Result-cases,
}
use systemd_ops.Json.{Value, null, str, int, pos, object, opt_str}
use systemd_ops.Systemd.Names.{is_valid_unit_name}

-- The connectors of the tree, in the order in which they are tried.
abbrev pub connectors : List Str
connectors =
    (0x2514 ∷ 0x2500 ∷ [])
    ∷ (0x251c ∷ 0x2500 ∷ [])
    ∷ (0x2502 ∷ [])
    ∷ (b'`' ∷ b'-' ∷ [])
    ∷ (b'|' ∷ b'-' ∷ [])
    ∷ (b'|' ∷ [])
    ∷ []

pub strip_any : List Str → Str → Option Str
strip_any [] s = none
strip_any (p ∷ ps) s = elim (strip_prefix p s) [ some rest ↦ some rest | none ↦ strip_any ps s ]

-- `trim_start_matches(' ')`.
pub skip_spaces : Str → Str
skip_spaces [] = []
skip_spaces (c ∷ s) = let rest = skip_spaces s in if c == 32 then rest else c ∷ s

-- The loop, with the length of the line as its fuel: each turn but the last takes a connector off.
pub strip_loop : ℕ → Str → Str
strip_loop zero rest = skip_spaces rest
strip_loop (suc fuel) rest = elim (strip_any connectors (skip_spaces rest)) [
  | some next ↦ strip_loop fuel next
  | none ↦ skip_spaces rest
]

pub strip_tree_prefix : Str → Str
strip_tree_prefix line = strip_loop (length line) line

-- `split_whitespace`.
pub tokens_from : Str → Str → List Str
tokens_from [] cur = if is_empty cur then [] else cur ∷ []
tokens_from (c ∷ s) cur = elim (is_whitespace c) [
  | true ↦ elim (is_empty cur) [ true ↦ tokens_from s [] | false ↦ cur ∷ tokens_from s [] ]
  | false ↦ tokens_from s (cur ++ c ∷ [])
]

pub split_whitespace : Str → List Str
split_whitespace s = tokens_from s []

-- `activated` and `duration`.
pub record Times : Type 0 where
  pub activated : Option Str
  pub duration : Option Str

-- A further word of a span: it goes to the duration, or else to the activation.
pub extend_span : Option Str → Option Str → Str → Times
extend_span a (some d) token = record { activated = a; duration = some (d ++ (32 ∷ token)) }
extend_span (some a) none token = record { activated = some (a ++ (32 ∷ token)); duration = none }
extend_span none none token = record { activated = none; duration = none }

pub read_token : Times → Str → Times
read_token t [] = extend_span t.activated t.duration []
read_token t (c ∷ s) =
    if c == b'@'
    then record t { activated = some s }
    else if c == b'+'
    then record t { duration = some s }
    else extend_span t.activated t.duration (c ∷ s)

pub read_tokens : Times → List Str → Times
read_tokens t [] = t
read_tokens t (w ∷ ws) = read_tokens (read_token t w) ws

abbrev pub chain_entry : Str → ℕ → Times → Value
chain_entry name depth t = object (
    (codes "unit", str name)
    ∷ (codes "depth", int (pos depth))
    ∷ (codes "activated", opt_str t.activated)
    ∷ (codes "duration", opt_str t.duration)
    ∷ [])

-- The entry of the words of one line, if it names a unit.
pub chain_words : ℕ → List Str → List Value
chain_words depth [] = []
chain_words depth (name ∷ tokens) =
    if contains name b'.' && is_valid_unit_name name
    then chain_entry name depth (read_tokens (record { activated = none; duration = none }) tokens)
      ∷ []
    else []

pub chain_line : Str → List Value
chain_line line =
    let rest = strip_tree_prefix line in
    chain_words ((length line - length rest) / 2) (split_whitespace rest)

pub chain_lines : List Str → List Value
chain_lines [] = []
chain_lines (l ∷ ls) = chain_line l ++ chain_lines ls

pub parse_critical_chain : Str → List Value
parse_critical_chain text = chain_lines (lines text)

-- `rsplit_once`.
pub rsplit_once : ℕ → Str → Option (Str × Str)
rsplit_once sep [] = none
rsplit_once sep (c ∷ s) = elim (rsplit_once sep s) [
  | some (a, b) ↦ some (c ∷ a, b)
  | none ↦ if c == sep then some ([], s) else none
]

abbrev pub starts_with_digit : Str → Bool
starts_with_digit [] = false
starts_with_digit (c ∷ s) = is_ascii_digit c

pub is_plausible : Str → Str → Bool
is_plausible time unit =
    starts_with_digit time
    && (contains unit b'.' && (not (ends_with (b'.' ∷ []) unit) && is_valid_unit_name unit))

abbrev pub blame_entry : Str → Str → Value
blame_entry unit time = object ((codes "unit", str unit) ∷ (codes "time", str time) ∷ [])

abbrev pub blame_pair : Option (Str × Str) → List Value
blame_pair none = []
blame_pair (some (time, unit)) =
    if is_plausible (trim time) unit then blame_entry unit (trim time) ∷ [] else []

pub blame_lines : List Str → List Value
blame_lines [] = []
blame_lines (l ∷ ls) = blame_pair (rsplit_once 32 (trim l)) ++ blame_lines ls

pub parse_blame : Str → List Value
parse_blame text = blame_lines (lines text)
