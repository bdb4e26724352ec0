-- ===== src/Operations/Fields/Tags.antt =====
-- What a list of tags that is read is.
use systemd_ops.Base.{
  ◌≡◌, refl, subst, inl, inr, true, false, ◌||◌, Option, none, some, List, [], ◌∷◌, ◌++◌, arith,
  leb, Bool-cases, length, Str, codes, str_eq, str_eq_iff, trim, ok, ensure, ok_or, bind-eq-ok,
}
use systemd_ops.Json.{Value, as_str}
use systemd_ops.Operations.Fields.{as_array, has_tag, is_tag, push_tag, tag_items, parse_tags}

-- Tags, of which none stands before an equal one.
abbrev pub AreTags : List Str → Type 0
AreTags [] = Unit
AreTags (t ∷ ts) = (is_tag t ≡ true) × (has_tag ts t ≡ false) × AreTags ts

has_tag_append :
    (ts : List Str) (s t : Str) → has_tag (ts ++ s ∷ []) t ≡ (has_tag ts t || str_eq s t)
unfolding has_tag
has_tag_append [] s t = ground arith
has_tag_append (x ∷ ts) s t = ground (arith, has_tag_append ts s t)

str_eq_sym : (a b : Str) → str_eq a b ≡ str_eq b a
str_eq_sym a b = ground (arith, str_eq_iff a b, str_eq_iff b a)

append-AreTags :
    (ts : List Str) (s : Str)
    → AreTags ts
    → is_tag s ≡ true
    → has_tag ts s ≡ false
    → AreTags (ts ++ s ∷ [])
unfolding has_tag
append-AreTags [] s d g n = (g, refl, tt)
append-AreTags (t ∷ ts) s d g n = (
  d.0,
  ground (arith, has_tag_append ts s t, d.1, str_eq_sym s t, n),
  append-AreTags ts s (d.2) g (ground (arith, n)),
)

push_tag-AreTags :
    (ts : List Str) (s : Str) → AreTags ts → is_tag s ≡ true → AreTags (push_tag ts s)
unfolding push_tag
push_tag-AreTags ts s d g = elim (Bool-cases (has_tag ts s)) [
  | inl y ↦ rw y d
  | inr n ↦ rw n (append-AreTags ts s d g n)
]

tag_items-AreTags :
    (items : List Value) (ts : List Str) {out : List Str}
    → AreTags ts
    → tag_items items ts ≡ ok out
    → AreTags out
unfolding tag_items
tag_items-AreTags [] ts d h = let same : ts ≡ _ = cc in subst AreTags same d
tag_items-AreTags (item ∷ rest) ts d h =
    let (text, e1, h1) = bind-eq-ok (ok_or (as_str item) (codes "tags must be strings")) _ h in
    let (u, e2, h2) =
      bind-eq-ok
        (ensure (is_tag (trim text))
          (codes "each tag must be 1..64 characters without commas or newlines"))
        _ h1 in
    tag_items-AreTags rest (push_tag ts (trim text))
      (push_tag-AreTags ts (trim text) d (ground (arith, e2))) h2

-- Tags that are read are each of 1 to 64 bytes without a comma or a line feed, and none stands twice.
pub parse_tags-AreTags : (v : Option Value) {out : List Str} → parse_tags v ≡ ok out → AreTags out
unfolding parse_tags
parse_tags-AreTags none h = let same : [] ≡ _ = cc in subst AreTags same tt
parse_tags-AreTags (some v) h =
    let (arr, e1, h1) =
      bind-eq-ok (ok_or (as_array v) (codes "tags must be an array of strings")) _ h in
    let (u, e2, h2) =
      bind-eq-ok (ensure (leb (length arr) 32) (codes "tags is limited to 32 entries")) _ h1 in
    tag_items-AreTags arr [] tt h2
