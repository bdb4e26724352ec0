-- ===== src/Write/Authoring.antt =====
-- The authoring verbs of src/write.rs and the snapshots of files that an authoring plan holds.
use systemd_ops.Base.{
  Option, some, List, [], ◌∷◌, ◌++◌, if◌then◌else◌, Str, codes, str_eq, Result, ok, err, ◌>>=◌,
  ok_or,
}
use systemd_ops.Json.{Value, array, get_str, list_of}
use systemd_ops.Token.Base64.{invalid_token}

pub data AuthoringVerb : Type 0 where
  create update retire : AuthoringVerb

pub authoring_parse : Str → Result AuthoringVerb
authoring_parse s =
    if str_eq s (codes "create")
    then ok create
    else if str_eq s (codes "update")
    then ok update
    else if str_eq s (codes "retire")
    then ok retire
    else err (codes "unknown authoring verb '" ++ (s ++ codes "'"))

pub authoring_str : AuthoringVerb → Str
authoring_str create = codes "create"
authoring_str update = codes "update"
authoring_str retire = codes "retire"

pub record FileSnapshot : Type 0 where
  pub path : Str
  pub sha256 : Option Str

pub snapshot_items : List Value → Result (List FileSnapshot)
snapshot_items [] = ok []
snapshot_items (item ∷ rest) = do
  path ← ok_or (get_str item (codes "path")) invalid_token
  files ← snapshot_items rest
  ok (record { path = path; sha256 = get_str item (codes "sha256") } ∷ files)

pub snapshots_from_json : Option Value → Result (List FileSnapshot)
snapshots_from_json (some (array vs)) = snapshot_items (list_of vs)
snapshots_from_json _ = ok []
