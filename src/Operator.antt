-- ===== src/Operator.antt =====
-- The texts of reports in src/operator.rs: `strict_single_line` and `strict_summary`.
pub mod Surface
pub mod Parse
pub mod RoundTrip
pub mod Iterations
pub mod Invariant
pub mod Session
pub mod Kept
pub mod Verdicts
pub mod Store
pub mod Atomic
mod Tests
use systemd_ops.Base.{
  ℕ, zero, suc, ◌+◌, ◌-◌, ◌*◌, ◌/◌, ◌%◌, ◌^◌, ◌≤◌, ◌<◌, min, max, String, ◌≡◌, refl, sym, ap, ap₂,
  ◌∙◌, subst, ◌≢◌, ◌↔◌, ◌⊎◌, inl, inr, Bool, true, false, not, ◌&&◌, ◌||◌, Option, none, some, List,
  [], ◌∷◌, ◌++◌, map, reverse, arith, ltb, leb, ◌==◌, if◌then◌else◌, within, leb→le, ltb→lt, ==_iff,
  Bool-cases, Option-cases, length, get_or, take, drop, replicate, all, any, retain, All,
  length-append, length-take, length-drop, length-replicate, length-map, All-append, Str, Bytes,
  IsByte, codes, str_eq, str_eq_iff, str_eq_refl, utf8_char, as_bytes, len, is_empty,
  is_ascii_lower, is_ascii_upper, is_ascii_digit, is_ascii_alphanumeric, is_whitespace, contains,
  trim_start, trim_end, trim, strip_prefix, starts_with, ends_with, contains_str, split, split_once,
  lines, join, ascii_lower, push_front, Result, ok, err, ◌>>=◌, ◌>>◌, ensure, ok_or, all_below,
  all_below_sound, bind-eq-ok, Result-cases,
}
use systemd_ops.Systemd.Clock.{print_u64}

-- `contains(['\n', '\r'])`.
unfoldable pub has_break : Str → Bool
has_break s = contains s 10 || contains s 13

unfoldable pub line_of : Str → Str → ℕ → Result Str
line_of label value max_chars = do
  ensure (not (is_empty value)) (label ++ codes " must not be empty")
  ensure (not (has_break value)) (label ++ codes " must be a single line")
  ensure (leb (length value) max_chars)
      (label ++ (codes " exceeds " ++ (print_u64 max_chars ++ codes " characters")))
  ok value

unfoldable pub strict_single_line : Str → Str → ℕ → Result Str
strict_single_line label value max_chars = line_of label (trim value) max_chars

abbrev pub min_items : ℕ
min_items = 1

abbrev pub max_items : ℕ
max_items = 5

abbrev pub max_item : ℕ
max_item = 280

pub paragraph : ℕ → Str → Str
paragraph index problem = codes "summary paragraph " ++ (print_u64 (index + 1) ++ problem)

pub item_of : ℕ → Str → Result Str
item_of index item = do
  ensure (not (is_empty item)) (paragraph index (codes " must not be empty"))
  ensure (not (has_break item)) (paragraph index (codes " must be one paragraph"))
  ensure (leb (length item) max_item)
      (paragraph index (codes " exceeds " ++ (print_u64 max_item ++ codes " characters")))
  ok item

-- The items from a place on.
pub summary_items : ℕ → List Str → Result (List Str)
summary_items index [] = ok []
summary_items index (item ∷ rest) = do
  first ← item_of index (trim item)
  others ← summary_items (index + 1) rest
  ok (first ∷ others)

pub strict_summary : List Str → Result (List Str)
strict_summary items = do
  ensure (within min_items max_items (length items)) (
      codes "summary must contain "
      ++ (print_u64 min_items ++ (codes ".." ++ (print_u64 max_items ++ codes " paragraphs"))))
  summary_items 0 items

-- A paragraph: not empty, without line breaks, and not too long.
abbrev pub IsParagraph : Str → Type 0
IsParagraph s = (is_empty s ≡ false) × (has_break s ≡ false) × (length s ≤ max_item)

item_of-IsParagraph :
    (index : ℕ) (item : Str) {out : Str}
    → item_of index item ≡ ok out
    → (out ≡ item) × IsParagraph item
unfolding item_of
item_of-IsParagraph index item h = ground arith

summary_items-IsParagraph :
    (index : ℕ) (items : List Str) {out : List Str}
    → summary_items index items ≡ ok out
    → (map trim items ≡ out) × All IsParagraph (map trim items)
unfolding summary_items
summary_items-IsParagraph index [] h = (cc, tt)
summary_items-IsParagraph index (item ∷ rest) h =
    let (first, e, h1) = bind-eq-ok (item_of index (trim item)) _ h in
    let (others, e2, h2) = bind-eq-ok (summary_items (index + 1) rest) _ h1 in
    let one = item_of-IsParagraph index (trim item) e in
    let more = summary_items-IsParagraph (index + 1) rest e2 in
    let same : trim item ≡ first = sym one.0 in let tails = more.0 in (cc, (one.1, more.1))

-- A summary that is accepted is the list of its paragraphs, trimmed: as many as allowed, each of
-- them not empty, without a line break and not longer than allowed.
pub strict_summary-IsParagraph :
    (items : List Str) {out : List Str}
    → strict_summary items ≡ ok out
    → (map trim items ≡ out)
      × All IsParagraph (map trim items)
      × (min_items ≤ length items)
      × (length items ≤ max_items)
unfolding strict_summary
strict_summary-IsParagraph items h =
    let (u, e, h1) = bind-eq-ok (ensure (within min_items max_items (length items)) _) _ h in
    let inner = summary_items-IsParagraph 0 items h1 in
    (inner.0, inner.1, ground (arith, e), ground (arith, e))
