-- ===== src/Systemd/Boot/Laws.antt =====
-- What the tree prefix of a line is, and what the entries of the readers name.
use systemd_ops.Base.{
  ℕ, ◌-◌, ◌/◌, ◌≡◌, refl, inl, inr, true, ◌&&◌, Option, none, some, List, [], ◌∷◌, arith,
  Bool-cases, length, All, All-append, Str, codes, str_eq, contains, trim, lines,
}
use systemd_ops.Json.{Value, get_str}
use systemd_ops.Systemd.Names.{is_valid_unit_name}
use systemd_ops.Systemd.Boot.{
  strip_tree_prefix, chain_words, chain_line, chain_lines, parse_critical_chain, is_plausible,
  blame_pair, blame_lines, parse_blame, rsplit_once, split_whitespace,
}

-- An entry names a unit with a valid name.
abbrev pub NamesUnit : Value → Type 0
NamesUnit v =
    (name : Str) × (get_str v (codes "unit") ≡ some name) × (is_valid_unit_name name ≡ true)

chain_words-NamesUnit : (depth : ℕ) (ws : List Str) → All NamesUnit (chain_words depth ws)
unfolding chain_words get_str str_eq
chain_words-NamesUnit depth [] = tt
chain_words-NamesUnit depth (name ∷ tokens) =
    elim (Bool-cases (contains name b'.' && is_valid_unit_name name)) [
      | inl y ↦ rw y ((name, refl, ground (arith, y)), tt)
      | inr n ↦ rw n tt
    ]

chain_lines-NamesUnit : (ls : List Str) → All NamesUnit (chain_lines ls)
unfolding chain_lines chain_line
chain_lines-NamesUnit [] = tt
chain_lines-NamesUnit (l ∷ ls) =
    All-append NamesUnit (chain_line l) (chain_lines ls)
      (chain_words-NamesUnit ((length l - length (strip_tree_prefix l)) / 2)
        (split_whitespace (strip_tree_prefix l)))
      (chain_lines-NamesUnit ls)

blame_pair-NamesUnit : (o : Option (Str × Str)) → All NamesUnit (blame_pair o)
unfolding is_plausible get_str str_eq
blame_pair-NamesUnit none = tt
blame_pair-NamesUnit (some (time, unit)) = elim (Bool-cases (is_plausible (trim time) unit)) [
  | inl y ↦ rw y ((unit, refl, ground (arith, y)), tt)
  | inr n ↦ rw n tt
]

blame_lines-NamesUnit : (ls : List Str) → All NamesUnit (blame_lines ls)
unfolding blame_lines
blame_lines-NamesUnit [] = tt
blame_lines-NamesUnit (l ∷ ls) =
    All-append NamesUnit (blame_pair (rsplit_once 32 (trim l))) (blame_lines ls)
      (blame_pair-NamesUnit (rsplit_once 32 (trim l))) (blame_lines-NamesUnit ls)

-- Whatever text is read, every entry of a critical chain and of a blame names a unit that is valid.
pub parse-NamesUnit :
    (text : Str) → All NamesUnit (parse_critical_chain text) × All NamesUnit (parse_blame text)
unfolding parse_critical_chain parse_blame
parse-NamesUnit text = (chain_lines-NamesUnit (lines text), blame_lines-NamesUnit (lines text))
