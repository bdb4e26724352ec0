-- ===== src/Systemd/Blocks.antt =====
-- `split_blocks` and `flush_block` of src/systemd.rs: the blocks of a `systemctl show` of many
-- units, by their `Id` lines. A map is a list of its entries, of which the first of a key is in
-- force; an entry is put in front.
use systemd_ops.Base.{
  Bool, true, false, Option, none, some, List, [], ◌∷◌, if◌then◌else◌, Str, codes, str_eq, is_empty,
  trim, split_once, lines,
}

abbrev pub Block : Type 0
Block = List (Str × Str)

pub find_key : Str → Block → Option Str
find_key key [] = none
find_key key ((k, v) ∷ rest) =
    let later = find_key key rest in if str_eq k key then some v else later

pub remove_key : Str → Block → Block
remove_key key [] = []
remove_key key ((k, v) ∷ rest) =
    let others = remove_key key rest in if str_eq k key then others else (k, v) ∷ others

-- The blocks after a flush; the block itself is empty then.
pub flush_block : List (Str × Block) → Block → Bool → List (Str × Block)
flush_block blocks block keep_id = elim (find_key (codes "Id") block) [
  | none ↦ blocks
  | some id ↦ (id, if keep_id then block else remove_key (codes "Id") block) ∷ blocks
]

abbrev pub insert_pair : Option (Str × Str) → Block → Block
insert_pair none block = block
insert_pair (some pair) block = pair ∷ block

pub block_lines : List Str → List (Str × Block) → Block → Bool → List (Str × Block)
block_lines [] blocks block keep_id = flush_block blocks block keep_id
block_lines (line ∷ rest) blocks block keep_id = elim (is_empty (trim line)) [
  | true ↦ block_lines rest (flush_block blocks block keep_id) [] keep_id
  | false ↦ block_lines rest blocks (insert_pair (split_once b'=' line) block) keep_id
]

pub split_blocks : Str → Bool → List (Str × Block)
split_blocks text keep_id = block_lines (lines text) [] [] keep_id
