-- ===== src/Operations/Author/Guard.antt =====
-- When `apply_authoring` leaves everything alone.
use systemd_ops.Base.{
  ◌≡◌, refl, ap, ◌⊎◌, inl, inr, true, Option, none, some, List, [], ◌∷◌, ◌++◌, All, Str, codes,
  str_eq_iff, Result, ok, err, ensure-eq-ok, Result-cases,
}
use systemd_ops.Files.{Disk}
use systemd_ops.Operations.Author.{
  World, Host, AuthoringWork, both, same_sha, current_sha, require_snapshot_fresh,
  require_all_fresh,
}
use systemd_ops.Operations.Author.Apply.{apply_authoring}
use systemd_ops.Systemd.Prefix.{require_write_unit}
use systemd_ops.Write.Authoring.{FileSnapshot}

same_sha-eq : (a b : Option Str) → same_sha a b ≡ true → a ≡ b
same_sha-eq none none h = refl
same_sha-eq none (some b) h = cc
same_sha-eq (some a) none h = cc
same_sha-eq (some a) (some b) h = ap some ((str_eq_iff a b).0 h)

-- A file that has the digest of its snapshot, or is missing as it was.
abbrev pub IsFresh : Disk → FileSnapshot → Type 0
IsFresh disk snap = current_sha disk snap.path ≡ snap.sha256

both-eq-ok :
    (a b : Result (Unit {0})) {u : Unit {0}}
    → both a b ≡ ok u
    → ((v : Unit {0}) × (a ≡ ok v)) × (b ≡ ok u)
both-eq-ok (ok v) b h = ((v, refl), h)
both-eq-ok (err e) b h = cc

require_all_fresh-IsFresh :
    (disk : Disk) (snaps : List FileSnapshot) {u : Unit {0}}
    → require_all_fresh disk snaps ≡ ok u
    → All (IsFresh disk) snaps
unfolding require_all_fresh require_snapshot_fresh
require_all_fresh-IsFresh disk [] h = tt
require_all_fresh-IsFresh disk (snap ∷ rest) h =
    let (first, more) =
      both-eq-ok (require_snapshot_fresh disk snap) (require_all_fresh disk rest) h in
    (
      same_sha-eq (current_sha disk snap.path) snap.sha256
          (ensure-eq-ok (same_sha (current_sha disk snap.path) snap.sha256) _ (first.1)),
      require_all_fresh-IsFresh disk rest more,
    )

-- The application of an authoring plan is an error that leaves files and units alone, or every file
-- of the plan's snapshots is as the plan saw it and the write prefix allows the operation's service.
pub apply_authoring_guarded :
    (host : Host) (stem : Str) (work : AuthoringWork) (warning : Option Str) (w : World)
    → ((e : Str) × (apply_authoring host stem work warning w ≡ (err e, w)))
      ⊎ (All (IsFresh w.disk) work.snapshots
          × (require_write_unit host.prefix (stem ++ codes ".service") ≡ ok tt))
unfolding apply_authoring
apply_authoring_guarded host stem work warning w =
    elim (Result-cases (require_all_fresh w.disk work.snapshots)) [
      | inr (e, h) ↦ inl (e, rw h refl)
      | inl (u, h) ↦
          elim (Result-cases (require_write_unit host.prefix (stem ++ codes ".service"))) [
            | inr (e, g) ↦ inl (e, rw (h, g) refl)
            | inl (v, g) ↦ inr (require_all_fresh-IsFresh w.disk work.snapshots h, g)
          ]
    ]
