-- ===== src/Systemd/Grants.antt =====
-- `Grants` of src/systemd.rs: the scopes that the MCP frontend may use, each at most once.
pub mod Laws
use systemd_ops.Base.{
  ℕ, zero, suc, ◌+◌, ◌-◌, ◌*◌, ◌/◌, ◌%◌, ◌^◌, ◌≤◌, ◌<◌, min, max, String, ◌≡◌, refl, sym, ap, ◌∙◌,
  subst, ◌≢◌, ◌↔◌, ◌⊎◌, inl, inr, Bool, true, false, not, ◌&&◌, ◌||◌, Option, none, some, List, [],
  ◌∷◌, ◌++◌, map, reverse, arith, ltb, leb, ◌==◌, if◌then◌else◌, within, leb→le, ltb→lt, ==_iff,
  Bool-cases, Option-cases, length, get_or, take, drop, replicate, all, any, retain, All,
  length-append, length-take, length-drop, length-replicate, length-map, All-append, Str, Bytes,
  codes, str_eq, str_eq_iff, str_eq_refl, utf8_char, as_bytes, len, is_empty, is_ascii_lower,
  is_ascii_upper, is_ascii_digit, is_ascii_alphanumeric, is_whitespace, contains, trim_start,
  trim_end, trim, strip_prefix, starts_with, ends_with, contains_str, split, split_once, join,
  ascii_lower, Result, ok, err, ◌>>=◌, ◌>>◌, ensure, ok_or, bind-eq-ok, Result-cases,
}
use systemd_ops.Systemd.Names.{
  Scope, units_read, journal_read, boot_read, units_write, all_scopes, scope_name, scope_parse,
  scope_eq,
}

-- `Vec<Scope>::contains`.
pub allows : List Scope → Scope → Bool
unfolding scope_eq
allows grants scope = any (scope_eq scope) grants

-- `if !scopes.contains(&scope) { scopes.push(scope) }`
pub push_scope : List Scope → Scope → List Scope
unfolding allows
push_scope grants scope = if allows grants scope then grants else grants ++ scope ∷ []

unknown_scope : Str → Str
unfolding scope_name join
unknown_scope part =
    codes "unknown scope '"
    ++ (part
        ++ (codes "' (known: " ++ (join (codes ", ") (map scope_name all_scopes) ++ codes ")")))

-- The loop over the trimmed parts; an empty part is skipped.
pub push_parts : List Str → List Scope → Result (List Scope)
unfolding push_scope scope_parse trim unknown_scope
push_parts [] grants = ok grants
push_parts (part ∷ rest) grants =
    let p = trim part in
    let skipped = push_parts rest grants in
    let taken : Result (List Scope) = elim (scope_parse p) [
      | none ↦ err (unknown_scope p)
      | some scope ↦ push_parts rest (push_scope grants scope)
    ] in
    if is_empty p then skipped else taken

unfoldable pub from_args : Str → Result (List Scope)
unfolding push_parts split
from_args spec = push_parts (split b',' spec) []

pub extend : List Scope → List Scope → List Scope
unfolding push_scope
extend grants [] = grants
extend grants (scope ∷ rest) = extend (push_scope grants scope) rest
