-- ===== src/Systemd/Names.antt =====
-- The small types of src/systemd.rs (`Manager`, `Surface`, `Scope`) with their words, unit names,
-- and the tools that the compact surface shows.
use systemd_ops.Base.{
  ℕ, Bool, true, false, not, ◌&&◌, ◌||◌, Option, none, some, List, [], ◌∷◌, ◌++◌, map, leb, ◌==◌,
  if◌then◌else◌, all, any, Str, codes, str_eq, len, is_empty, is_ascii_alphanumeric, Result, ensure,
}

pub data Manager : Type 0 where
  system user : Manager

unfoldable pub manager_parse : Str → Option Manager
manager_parse s =
    if str_eq s (codes "system")
    then some system
    else if str_eq s (codes "user")
    then some user
    else none

unfoldable pub manager_str : Manager → Str
manager_str system = codes "system"
manager_str user = codes "user"

-- `manager != cfg.manager`, by its negation.
unfoldable pub manager_eq : Manager → Manager → Bool
manager_eq system system = true
manager_eq user user = true
manager_eq _ _ = false

pub data Surface : Type 0 where
  full compact : Surface

pub surface_parse : Str → Option Surface
surface_parse s =
    if str_eq s (codes "full")
    then some full
    else if str_eq s (codes "compact")
    then some compact
    else none

pub data Scope : Type 0 where
  units_read journal_read boot_read units_write : Scope

abbrev pub all_scopes : List Scope
all_scopes = units_read ∷ journal_read ∷ boot_read ∷ units_write ∷ []

unfoldable pub scope_name : Scope → Str
scope_name units_read = codes "units:read"
scope_name journal_read = codes "journal:read"
scope_name boot_read = codes "boot:read"
scope_name units_write = codes "units:write"

-- `iter().find(|scope| scope.name() == s)`
find_scope : Str → List Scope → Option Scope
unfolding scope_name
find_scope s [] = none
find_scope s (x ∷ xs) =
    let rest = find_scope s xs in if str_eq (scope_name x) s then some x else rest

unfoldable pub scope_parse : Str → Option Scope
unfolding find_scope
scope_parse s = find_scope s all_scopes

unfoldable pub scope_eq : Scope → Scope → Bool
scope_eq units_read units_read = true
scope_eq journal_read journal_read = true
scope_eq boot_read boot_read = true
scope_eq units_write units_write = true
scope_eq _ _ = false

abbrev pub is_unit_char : ℕ → Bool
is_unit_char c =
    is_ascii_alphanumeric c
    || c == b'-'
    || c == b'_'
    || c == b'.'
    || c == b'@'
    || c == b'\\'
    || c == b':'

unfoldable pub is_valid_unit_name : Str → Bool
unfolding len
is_valid_unit_name name = not (is_empty name) && leb (len name) 256 && all is_unit_char name

pub not_valid_name : Str → Str
not_valid_name name = codes "'" ++ (name ++ codes "' is not a valid unit name")

unfoldable pub validate_unit_name : Str → Result (Unit {0})
unfolding is_valid_unit_name
validate_unit_name name = ensure (is_valid_unit_name name) (not_valid_name name)

abbrev pub compact_tools : List Str
compact_tools = map codes (
    "list_units" ∷ "failed_units" ∷ "get_unit" ∷ "list_operations" ∷ "get_operation" ∷ "list_timers"
    ∷ "list_unit_files" ∷ "unit_dependencies" ∷ "unit_logs" ∷ "plan_change"
    ∷ "plan_create_operation" ∷ "plan_update_operation" ∷ "plan_retire_operation" ∷ "apply_plan"
    ∷ [])

pub compact_tool : Str → Bool
compact_tool name = any (str_eq name) compact_tools

pub tool_visible : Surface → Str → Bool
unfolding compact_tool
tool_visible full name = true
tool_visible compact name = compact_tool name
