-- ===== src/Scope.antt =====
-- `ScopeHealth` of src/scope.rs: the health of a scope and how the health of a member raises it.
pub mod Manifest
pub mod View
pub mod Aggregate
pub mod Discovery
mod Tests
use systemd_ops.Base.{
  ℕ, zero, suc, ◌+◌, ◌-◌, ◌*◌, ◌/◌, ◌%◌, ◌^◌, ◌≤◌, ◌<◌, min, max, String, ◌≡◌, refl, sym, ap, ap₂,
  ◌∙◌, subst, ◌≢◌, ◌↔◌, ◌⊎◌, inl, inr, Bool, true, false, not, ◌&&◌, ◌||◌, Option, none, some, List,
  [], ◌∷◌, ◌++◌, map, reverse, arith, ltb, leb, ◌==◌, if◌then◌else◌, within, leb→le, ltb→lt, ==_iff,
  Bool-cases, Option-cases, length, get_or, take, drop, replicate, all, any, retain, All,
  length-append, length-take, length-drop, length-replicate, length-map, All-append, Str, Bytes,
  IsByte, codes, str_eq, str_eq_iff, str_eq_refl, utf8_char, as_bytes, len, is_empty,
  is_ascii_lower, is_ascii_upper, is_ascii_digit, is_ascii_alphanumeric, is_whitespace, contains,
  trim_start, trim_end, trim, strip_prefix, starts_with, ends_with, contains_str, split, split_once,
  lines, join, ascii_lower, push_front, Result, ok, err, ◌>>=◌, ◌>>◌, ensure, ok_or, all_below,
  all_below_sound, bind-eq-ok, Result-cases,
}

pub data ScopeHealth : Type 0 where
  healthy degraded failed unknown : ScopeHealth

pub scope_health_str : ScopeHealth → Str
scope_health_str healthy = codes "healthy"
scope_health_str degraded = codes "degraded"
scope_health_str failed = codes "failed"
scope_health_str unknown = codes "unknown"

pub rank : ScopeHealth → ℕ
rank healthy = 0
rank unknown = 1
rank degraded = 2
rank failed = 3

pub raise : ScopeHealth → ScopeHealth → ScopeHealth
raise self other = if ltb (rank self) (rank other) then other else self

-- `health = health.raise(h)` for each of a list.
pub raise_all : ScopeHealth → List ScopeHealth → ScopeHealth
raise_all now [] = now
raise_all now (h ∷ hs) = raise_all (raise now h) hs

-- The worst rank of a list, and of the one to begin with.
abbrev pub worst : ℕ → List ScopeHealth → ℕ
worst n [] = n
worst n (h ∷ hs) = max (rank h) (worst n hs)

rank-raise : (a b : ScopeHealth) → rank (raise a b) ≡ max (rank b) (rank a)
unfolding raise rank
rank-raise a b = ground arith

worst-raise :
    (a : ScopeHealth) (h : ScopeHealth) (hs : List ScopeHealth)
    → worst (rank (raise a h)) hs ≡ max (rank h) (worst (rank a) hs)
worst-raise a h [] = rank-raise a h
worst-raise a h (x ∷ hs) = omega (arith, worst-raise a h hs)

-- Raised by the members one after the other, the health of a scope has the worst rank among them and
-- the health that it had before.
pub rank-raise_all :
    (now : ScopeHealth) (hs : List ScopeHealth) → rank (raise_all now hs) ≡ worst (rank now) hs
unfolding raise_all
rank-raise_all now [] = refl
rank-raise_all now (h ∷ hs) = rank-raise_all (raise now h) hs ∙ worst-raise now h hs
