-- ===== src/Base/Text.antt =====
-- Rust's `str` as the list of its code points, and the functions of the standard library that the
-- source calls on it. `len` counts the bytes of the UTF-8 encoding, `length` the characters.
use Prim.Native.Char.{code}
use Prim.Native.Nat.{◌<◌, ℕ, ◌+◌, ◌/◌, ◌%◌}
use Prim.Native.String.{String}
use mathlib.Core.Path.{◌≡◌, refl}
use mathlib.Core.Logic.{◌↔◌}
use mathlib.Core.Bool.{Bool, true, false, ◌&&◌, ◌||◌}
use mathlib.Core.List.{List, [], ◌∷◌, ◌++◌}
use mathlib.Core.Option.{Option, none, some}
use native.Mathlib.Omega.{arith}
use systemd_ops.Base.Tests.{ltb, ◌==◌, if◌then◌else◌, within}
use systemd_ops.Base.Lists.{any, length}

abbrev pub Str : Type 0
Str = List ℕ

abbrev pub Bytes : Type 0
Bytes = List ℕ

abbrev pub IsByte : ℕ → Type 0
IsByte b = b < 256

-- The code points of a literal.
abbrev pub codes : String → Str
codes String.[] = []
codes (String.◌∷◌ c s) = code c ∷ codes s

unfoldable pub str_eq : Str → Str → Bool
str_eq [] [] = true
str_eq (x ∷ xs) (y ∷ ys) = x == y && str_eq xs ys
str_eq _ _ = false

pub str_eq_iff : (a b : Str) → (str_eq a b ≡ true) ↔ (a ≡ b)
unfolding str_eq
str_eq_iff (x ∷ a) (y ∷ b) = ground (arith, str_eq_iff a b)
str_eq_iff _ _ = ground arith

pub str_eq_refl : (a : Str) → str_eq a a ≡ true
str_eq_refl a = (str_eq_iff a a).1 refl

-- The UTF-8 encoding of a code point, and of a text (`as_bytes`).
unfoldable pub utf8_char : ℕ → Bytes
utf8_char c =
    if ltb c 0x80
    then c ∷ []
    else if ltb c 0x800
    then (0xc0 + c / 64) ∷ (0x80 + c % 64) ∷ []
    else if ltb c 0x1_0000
    then (0xe0 + c / 4096) ∷ (0x80 + c / 64 % 64) ∷ (0x80 + c % 64) ∷ []
    else (0xf0 + c / 262_144) ∷ (0x80 + c / 4096 % 64) ∷ (0x80 + c / 64 % 64) ∷ (0x80 + c % 64) ∷ []

unfoldable pub as_bytes : Str → Bytes
unfolding utf8_char
as_bytes [] = []
as_bytes (c ∷ s) = utf8_char c ++ as_bytes s

-- `str::len`.
unfoldable pub len : Str → ℕ
unfolding as_bytes
len s = length (as_bytes s)

abbrev pub is_empty : Str → Bool
is_empty [] = true
is_empty (c ∷ s) = false

abbrev pub is_ascii_lower : ℕ → Bool
is_ascii_lower = within b'a' b'z'

abbrev pub is_ascii_upper : ℕ → Bool
is_ascii_upper = within b'A' b'Z'

abbrev pub is_ascii_digit : ℕ → Bool
is_ascii_digit = within b'0' b'9'

abbrev pub is_ascii_alphanumeric : ℕ → Bool
is_ascii_alphanumeric c = is_ascii_lower c || is_ascii_upper c || is_ascii_digit c

-- The Unicode property White_Space.
unfoldable pub is_whitespace : ℕ → Bool
is_whitespace c =
    within 9 13 c
    || c == 32
    || c == 0x85
    || c == 0xa0
    || c == 0x1680
    || within 0x2000 0x200a c
    || within 0x2028 0x2029 c
    || c == 0x202f
    || c == 0x205f
    || c == 0x3000

unfoldable pub contains : Str → ℕ → Bool
contains s c = any (λ x. x == c) s

unfoldable pub trim_start : Str → Str
unfolding is_whitespace
trim_start [] = []
trim_start (c ∷ s) = let rest = trim_start s in if is_whitespace c then rest else c ∷ s

-- Drops a suffix of white space: a character is kept if it, or one behind it, is kept.
unfoldable pub trim_end : Str → Str
unfolding is_whitespace
trim_end [] = []
trim_end (c ∷ s) =
    let rest = trim_end s in if is_empty rest && is_whitespace c then [] else c ∷ rest

unfoldable pub trim : Str → Str
unfolding trim_start trim_end
trim s = trim_end (trim_start s)

unfoldable pub strip_prefix : Str → Str → Option Str
strip_prefix [] s = some s
strip_prefix (p ∷ ps) [] = none
strip_prefix (p ∷ ps) (c ∷ s) = let rest = strip_prefix ps s in if p == c then rest else none

unfoldable pub starts_with : Str → Str → Bool
starts_with [] s = true
starts_with (p ∷ ps) [] = false
starts_with (p ∷ ps) (c ∷ s) = p == c && starts_with ps s

unfoldable pub ends_with : Str → Str → Bool
unfolding str_eq
ends_with p [] = is_empty p
ends_with p (c ∷ s) = str_eq p (c ∷ s) || ends_with p s

-- `str::contains` of a text.
unfoldable pub contains_str : Str → Str → Bool
unfolding starts_with
contains_str p [] = is_empty p
contains_str p (c ∷ s) = starts_with p (c ∷ s) || contains_str p s

-- `split(sep)`: the piece before the first separator, and those behind it.
abbrev pub push_front : ℕ → List Str → List Str
push_front c [] = (c ∷ []) ∷ []
push_front c (p ∷ ps) = (c ∷ p) ∷ ps

unfoldable pub split : ℕ → Str → List Str
split sep [] = [] ∷ []
split sep (c ∷ s) = let rest = split sep s in if c == sep then [] ∷ rest else push_front c rest

unfoldable pub split_once : ℕ → Str → Option (Str × Str)
split_once sep [] = none
split_once sep (c ∷ s) =
    let rest = split_once sep s in
    if c == sep then some ([], s) else elim rest [ none ↦ none | some (a, b) ↦ some (c ∷ a, b) ]

-- `join(sep)` and `concat`.
unfoldable pub join : Str → List Str → Str
join sep [] = []
join sep (p ∷ []) = p
join sep (p ∷ q ∷ ps) = p ++ (sep ++ join sep (q ∷ ps))

-- `to_ascii_lowercase`.
abbrev pub ascii_lower : ℕ → ℕ
ascii_lower c = if is_ascii_upper c then c + 32 else c

-- `str::lines`: a line ends at a line feed, a carriage return before which is dropped, and what is
-- behind the last line feed is a line if it is not empty.
strip_cr : Str → Str
strip_cr [] = []
strip_cr (c ∷ s) = let rest = strip_cr s in if c == 13 && is_empty s then [] else c ∷ rest

full_lines : List Str → List Str
unfolding strip_cr
full_lines [] = []
full_lines (l ∷ []) = if is_empty l then [] else l ∷ []
full_lines (l ∷ m ∷ ls) = strip_cr l ∷ full_lines (m ∷ ls)

unfoldable pub lines : Str → List Str
unfolding full_lines split
lines s = full_lines (split 10 s)
