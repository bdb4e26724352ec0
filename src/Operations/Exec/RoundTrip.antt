-- ===== src/Operations/Exec/RoundTrip.antt =====
-- A command line that is written is read back.
use systemd_ops.Base.{
  ℕ, ◌<◌, ◌≡◌, refl, sym, ap, ◌∙◌, subst, ◌≢◌, inl, inr, Bool, true, false, not, ◌&&◌, some, List,
  [], ◌∷◌, ◌++◌, map, arith, ◌==◌, if◌then◌else◌, Bool-cases, any, All, All-append, Str, codes,
  as_bytes, is_empty, is_whitespace, join,
}
use mathlib.Core.List.{append-nil, append_assoc}
use systemd_ops.Token.Base64.RoundTrip.{as_bytes-ascii}
use systemd_ops.Operations.Exec.{
  replace_char, escape_word, wants_quotes, needs_quotes, quote_word, exec_line, unescape_exec_word,
  end_word, exec_words, path_and_argv, split_exec,
}

-- A character that a word may hold: ASCII, and no double quote.
abbrev pub IsPlain : ℕ → Type 0
IsPlain c = (c < 128) × (c ≢ 34)

-- One character, escaped.
abbrev escape_char : ℕ → Str
escape_char c =
    if c == 92
    then 92 ∷ 92 ∷ []
    else if c == 34
    then 92 ∷ 34 ∷ []
    else if c == b'$'
    then 92 ∷ b'$' ∷ []
    else if c == b'%'
    then b'%' ∷ b'%' ∷ []
    else c ∷ []

escape_word_cons : (c : ℕ) (s : Str) → escape_word (c ∷ s) ≡ escape_char c ++ escape_word s
unfolding escape_word replace_char
escape_word_cons c s = ground arith

unescape_other :
    (c : ℕ) (s : Str)
    → (c == 92) ≡ false
    → (c == b'%') ≡ false
    → unescape_exec_word (c ∷ s) ≡ c ∷ unescape_exec_word s
unfolding unescape_exec_word
unescape_other c [] h k = refl
unescape_other c (d ∷ s) h k = ground (arith, h, k)

unescape-escape_char :
    (c : ℕ) (s : Str) → unescape_exec_word (escape_char c ++ s) ≡ c ∷ unescape_exec_word s
unescape-escape_char c s = elim (Bool-cases (c == 92)) [
  | inl e ↦
      let is : 92 ≡ c = ground arith in
      subst (λ x. unescape_exec_word (escape_char x ++ s) ≡ x ∷ unescape_exec_word s) is
        (unfold unescape_exec_word in refl)
  | inr n ↦ elim (Bool-cases (c == 34)) [
    | inl e ↦
        let is : 34 ≡ c = ground arith in
        subst (λ x. unescape_exec_word (escape_char x ++ s) ≡ x ∷ unescape_exec_word s) is
          (unfold unescape_exec_word in refl)
    | inr n2 ↦ elim (Bool-cases (c == b'$')) [
      | inl e ↦
          let is : b'$' ≡ c = ground arith in
          subst (λ x. unescape_exec_word (escape_char x ++ s) ≡ x ∷ unescape_exec_word s) is
            (unfold unescape_exec_word in refl)
      | inr n3 ↦ elim (Bool-cases (c == b'%')) [
        | inl e ↦
            let is : b'%' ≡ c = ground arith in
            subst (λ x. unescape_exec_word (escape_char x ++ s) ≡ x ∷ unescape_exec_word s) is
              (unfold unescape_exec_word in refl)
        | inr n4 ↦ rw (n, n2, n3, n4) (unescape_other c s n n4)
      ]
    ]
  ]
]

-- The text of a word is read back from its escaped form, whatever it holds.
unescape-escape_word : (s : Str) → unescape_exec_word (escape_word s) ≡ s
unescape-escape_word [] = unfold escape_word replace_char unescape_exec_word in refl
unescape-escape_word (c ∷ s) =
    rw (escape_word_cons c s, unescape-escape_char c (escape_word s), unescape-escape_word s)

-- Characters that a word inside quotes keeps, and those that it also keeps outside.
abbrev NoQuote : Str → Type 0
NoQuote = All (λ c. (c == 34) ≡ false)

abbrev Solid : Str → Type 0
Solid = All (λ c. ((c == 34) ≡ false) × (is_whitespace c ≡ false))

exec_words_keep :
    (c : ℕ) (s cur : Str) (q : Bool)
    → (c == 34) ≡ false
    → (is_whitespace c && not q) ≡ false
    → exec_words (c ∷ s) cur q ≡ exec_words s (cur ++ c ∷ []) q
unfolding exec_words
exec_words_keep c s cur q h k = ground (arith, h, k)

and_false : (b : Bool) → (b && false) ≡ false
and_false true = refl
and_false false = refl

exec_words_quoted :
    (s rest cur : Str)
    → NoQuote s
    → exec_words (s ++ rest) cur true ≡ exec_words rest (cur ++ s) true
exec_words_quoted [] rest cur h = rw (append-nil cur)
exec_words_quoted (c ∷ s) rest cur h =
    exec_words_keep c (s ++ rest) cur true h.0 (and_false (is_whitespace c))
    ∙ exec_words_quoted s rest (cur ++ c ∷ []) h.1
    ∙ ap (λ x. exec_words rest x true) (append_assoc cur (c ∷ []) s)

exec_words-Solid :
    (s rest cur : Str)
    → Solid s
    → exec_words (s ++ rest) cur false ≡ exec_words rest (cur ++ s) false
exec_words-Solid [] rest cur h = rw (append-nil cur)
exec_words-Solid (c ∷ s) rest cur h =
    exec_words_keep c (s ++ rest) cur false h.0.0 (rw h.0.1)
    ∙ exec_words-Solid s rest (cur ++ c ∷ []) h.1
    ∙ ap (λ x. exec_words rest x false) (append_assoc cur (c ∷ []) s)

escape_char-NoQuote : (c : ℕ) → IsPlain c → NoQuote (escape_char c)
escape_char-NoQuote c h = ground arith

-- An escaped word holds no quotes.
escape_word-NoQuote : (s : Str) → All IsPlain s → NoQuote (escape_word s)
escape_word-NoQuote [] h = unfold escape_word replace_char in tt
escape_word-NoQuote (c ∷ s) h = subst NoQuote (sym (escape_word_cons c s)) (
    All-append _ (escape_char c) (escape_word s) (escape_char-NoQuote c h.0)
      (escape_word-NoQuote s h.1))

escape_char-ascii : (c : ℕ) → IsPlain c → All (λ x. x < 128) (escape_char c)
escape_char-ascii c h = ground arith

escape_word-ascii : (s : Str) → All IsPlain s → All (λ c. c < 128) (escape_word s)
escape_word-ascii [] h = unfold escape_word replace_char in tt
escape_word-ascii (c ∷ s) h = subst (All (λ x. x < 128)) (sym (escape_word_cons c s)) (
    All-append _ (escape_char c) (escape_word s) (escape_char-ascii c h.0)
      (escape_word-ascii s h.1))

-- What needs no quotes is solid.
solid : (s : Str) → All (λ c. c < 128) s → any wants_quotes s ≡ false → Solid s
unfolding is_whitespace
solid [] a h = tt
solid (c ∷ s) a h = ((ground arith, ground arith), solid s a.1 (ground arith))

-- A word of a command line: not empty, of ASCII characters without a double quote.
abbrev pub IsWord : Str → Type 0
IsWord w = (is_empty w ≡ false) × All IsPlain w

end_word_full : (w : Str) (ws : List Str) → is_empty w ≡ false → end_word w ws ≡ w ∷ ws
end_word_full [] ws h = cc
end_word_full (c ∷ w) ws h = refl

escape_char_append : (c : ℕ) (s : Str) → is_empty (escape_char c ++ s) ≡ false
escape_char_append c s = ground arith

escape_word_full : (w : Str) → is_empty w ≡ false → is_empty (escape_word w) ≡ false
escape_word_full [] h = cc
escape_word_full (c ∷ w) h = rw (escape_word_cons c w) (escape_char_append c (escape_word w))

escape_word-Solid :
    (w : Str) → IsWord w → needs_quotes (escape_word w) ≡ false → Solid (escape_word w)
unfolding needs_quotes
escape_word-Solid w h e =
    let plain : any wants_quotes (as_bytes (escape_word w)) ≡ false = ground (arith, e) in
    let ascii = escape_word-ascii w h.1 in
    solid (escape_word w) ascii
      (sym (ap (any wants_quotes) (as_bytes-ascii (escape_word w) ascii)) ∙ plain)

-- Reading a written word leaves its escaped text.
exec_words-quote_word :
    (w rest : Str)
    → IsWord w
    → exec_words (quote_word w ++ rest) [] false ≡ exec_words rest (escape_word w) false
unfolding quote_word exec_words
exec_words-quote_word w rest h = elim (Bool-cases (needs_quotes (escape_word w))) [
  | inl e ↦
      ap
        (λ b.
          exec_words ((if b then 34 ∷ (escape_word w ++ 34 ∷ []) else escape_word w) ++ rest) []
            false)
        e
      ∙ ap (λ x. exec_words x [] true) (append_assoc (escape_word w) (34 ∷ []) rest)
      ∙ exec_words_quoted (escape_word w) (34 ∷ rest) [] (escape_word-NoQuote w h.1)
  | inr e ↦
      ap
        (λ b.
          exec_words ((if b then 34 ∷ (escape_word w ++ 34 ∷ []) else escape_word w) ++ rest) []
            false)
        e
      ∙ exec_words-Solid (escape_word w) rest [] (escape_word-Solid w h e)
]

exec_words_space :
    (s cur : Str)
    → is_empty cur ≡ false
    → exec_words (32 ∷ s) cur false ≡ cur ∷ exec_words s [] false
unfolding exec_words is_whitespace
exec_words_space s cur h = end_word_full cur (exec_words s [] false) h

exec_words-join :
    (w : Str) (ws : List Str)
    → All IsWord (w ∷ ws)
    → exec_words (join (codes " ") (map quote_word (w ∷ ws))) [] false ≡ map escape_word (w ∷ ws)
unfolding join
exec_words-join w [] h =
    ap (λ x. exec_words x [] false) (sym (append-nil (quote_word w)))
    ∙ exec_words-quote_word w [] h.0
    ∙ unfold exec_words in end_word_full (escape_word w) [] (escape_word_full w h.0.0)
exec_words-join w (v ∷ ws) h =
    exec_words-quote_word w (32 ∷ join (codes " ") (map quote_word (v ∷ ws))) h.0
    ∙ exec_words_space (join (codes " ") (map quote_word (v ∷ ws))) (escape_word w)
        (escape_word_full w h.0.0)
    ∙ ap (◌∷◌ (escape_word w)) (exec_words-join v ws h.1)

map-unescape : (ws : List Str) → map unescape_exec_word (map escape_word ws) ≡ ws
map-unescape [] = refl
map-unescape (w ∷ ws) = rw (unescape-escape_word w, map-unescape ws)

-- A command line written by `exec_line` is read back by `split_exec` as its path and arguments,
-- where every word is a non-empty ASCII text without a double quote; spaces, control characters,
-- backslashes, dollar and percent signs are allowed.
pub split_exec-exec_line :
    (path : Str) (argv : List Str)
    → All IsWord (path ∷ argv)
    → split_exec (exec_line path argv) ≡ (some path, argv)
unfolding split_exec exec_line
split_exec-exec_line path argv h =
    ap path_and_argv (exec_words-join path argv h)
    ∙ rw (unescape-escape_word path, map-unescape argv)
