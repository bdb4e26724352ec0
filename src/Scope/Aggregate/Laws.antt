-- ===== src/Scope/Aggregate/Laws.antt =====
-- The health of a scope, by its members.
use systemd_ops.Base.{
  ◌≡◌, refl, sym, ap, ap₂, ◌∙◌, Bool, true, false, ◌&&◌, Option, none, some, List, [], ◌∷◌, ◌++◌,
  arith,
}
use systemd_ops.Json.{Value}
use systemd_ops.Operations.Health.{Health, healthy, failed, unknown, operation_health}
use systemd_ops.Scope.{ScopeHealth, rank, raise, raise_all, worst, rank-raise_all}
use systemd_ops.Scope
use systemd_ops.Scope.Manifest.{ScopeManifest}
use systemd_ops.Scope.View.{Joins}
use systemd_ops.Scope.Aggregate.{
  owned_member, judge, judge_watching, list_of_option, raise_by, Tally, add_owned, tally_owned,
  add_watching, tally_watching, is_nil, start_tally, aggregate,
}

-- What an operation is meant to raise the health to.
abbrev pub expected : Health → Bool → List ScopeHealth
expected failed true = Scope.failed ∷ []
expected failed false = Scope.degraded ∷ []
expected unknown true = Scope.unknown ∷ []
expected unknown false = []
expected healthy critical = []

abbrev pub expected_watching : Health → List ScopeHealth
expected_watching failed = Scope.degraded ∷ []
expected_watching unknown = []
expected_watching healthy = []

abbrev pub owned_raises : ScopeManifest → Joins → Value → List ScopeHealth
owned_raises m joins view =
    let member = owned_member m joins view in expected member.health member.critical

abbrev pub watching_raises : Value → List ScopeHealth
watching_raises view = expected_watching (operation_health view)

judge-expected :
    (h : Health) (critical wanted : Bool)
    → list_of_option ((judge h critical wanted).0) ≡ expected h critical
unfolding judge
judge-expected healthy critical wanted = refl
judge-expected failed true wanted = refl
judge-expected failed false wanted = refl
judge-expected unknown true wanted = refl
judge-expected unknown false true = refl
judge-expected unknown false false = refl

judge_watching-expected : (h : Health) → list_of_option ((judge_watching h).0) ≡ expected_watching h
judge_watching-expected healthy = refl
judge_watching-expected failed = refl
judge_watching-expected unknown = refl

abbrev pub raises {ℓ} : {A : Type ℓ} → (A → List ScopeHealth) → List A → List ScopeHealth
raises f [] = []
raises f (a ∷ l) = f a ++ raises f l

raise_all-append :
    (h : ScopeHealth) (a b : List ScopeHealth) → raise_all h (a ++ b) ≡ raise_all (raise_all h a) b
unfolding raise_all
raise_all-append h [] b = refl
raise_all-append h (x ∷ a) b = raise_all-append (raise h x) a b

raise_by-raise_all :
    (h : ScopeHealth) (o : Option ScopeHealth) → raise_by h o ≡ raise_all h (list_of_option o)
unfolding raise_all
raise_by-raise_all h none = refl
raise_by-raise_all h (some other) = refl

tally_owned-health :
    (m : ScopeManifest) (joins : Joins) (t : Tally) (ops : List Value)
    → (tally_owned m joins t ops).health ≡ raise_all t.health (raises (owned_raises m joins) ops)
unfolding tally_owned add_owned raise_all
tally_owned-health m joins t [] = refl
tally_owned-health m joins t (view ∷ ops) =
    let member = owned_member m joins view in
    let judged = judge member.health member.critical member.wanted_inactive in
    let known = judge-expected member.health member.critical member.wanted_inactive in
    tally_owned-health m joins (add_owned t member) ops
    ∙ ap (λ h. raise_all h (raises (owned_raises m joins) ops))
        (raise_by-raise_all t.health (judged.0) ∙ ap (raise_all t.health) known)
    ∙ sym
        (raise_all-append t.health (owned_raises m joins view) (raises (owned_raises m joins) ops))

tally_watching-health :
    (m : ScopeManifest) (joins : Joins) (t : Tally) (ops : List Value)
    → (tally_watching m joins t ops).health ≡ raise_all t.health (raises watching_raises ops)
unfolding tally_watching add_watching raise_all
tally_watching-health m joins t [] = refl
tally_watching-health m joins t (view ∷ ops) =
    let judged = judge_watching (operation_health view) in
    tally_watching-health m joins (add_watching m joins t view) ops
    ∙ ap (λ h. raise_all h (raises watching_raises ops))
        (raise_by-raise_all t.health (judged.0)
          ∙ ap (raise_all t.health) (judge_watching-expected (operation_health view)))
    ∙ sym (raise_all-append t.health (watching_raises view) (raises watching_raises ops))

-- The joins leave no operation out, and make none up.
abbrev pub KeepsSome : Joins → Type 0
KeepsSome joins =
    (views : List Value)
    → is_nil (joins.attach_relations (joins.derive_semantic_states views)) ≡ is_nil views

pub is_nil-append {ℓ} : {A : Type ℓ} (a : List A) (x : A) → is_nil (a ++ x ∷ []) ≡ false
is_nil-append [] x = refl
is_nil-append (y ∷ a) x = refl

and_false : (b : Bool) → b && false ≡ false
and_false true = refl
and_false false = refl

tally_owned-views :
    (m : ScopeManifest) (joins : Joins) (t : Tally) (ops : List Value)
    → is_nil (tally_owned m joins t ops).views ≡ is_nil t.views && is_nil ops
unfolding tally_owned add_owned
tally_owned-views m joins t [] = ground arith
tally_owned-views m joins t (view ∷ ops) =
    tally_owned-views m joins (add_owned t (owned_member m joins view)) ops
    ∙ ap (λ b. b && is_nil ops) (is_nil-append t.views _)
    ∙ sym (and_false (is_nil t.views))

tally_watching-views :
    (m : ScopeManifest) (joins : Joins) (t : Tally) (ops : List Value)
    → is_nil (tally_watching m joins t ops).views ≡ is_nil t.views && is_nil ops
unfolding tally_watching add_watching
tally_watching-views m joins t [] = ground arith
tally_watching-views m joins t (view ∷ ops) =
    tally_watching-views m joins (add_watching m joins t view) ops
    ∙ ap (λ b. b && is_nil ops) (is_nil-append t.views _)
    ∙ sym (and_false (is_nil t.views))

-- The view of a scope with an operation has one.
pub aggregate-views :
    (m : ScopeManifest) (joins : Joins) (owned_ops watching_ops : List Value)
    → KeepsSome joins
    → is_nil owned_ops && is_nil watching_ops ≡ false
    → is_nil (aggregate m joins owned_ops watching_ops).owned
        && is_nil (aggregate m joins owned_ops watching_ops).watching
      ≡ false
unfolding aggregate
aggregate-views m joins owned_ops watching_ops k n =
    let t = tally_owned m joins start_tally owned_ops in
    ap₂ ◌&&◌ (k t.views ∙ tally_owned-views m joins start_tally owned_ops)
      (tally_watching-views m joins (record t { views = [] }) watching_ops)
    ∙ n

-- Where an operation is listed and the joins keep some, the health of the scope has the worst of the
-- ranks that its operations raise it to: failed for a critical one that failed, degraded for
-- another one of the scope or a watched one that failed, unknown for a critical one that is unknown.
pub aggregate-rank :
    (m : ScopeManifest) (joins : Joins) (owned_ops watching_ops : List Value)
    → KeepsSome joins
    → is_nil owned_ops && is_nil watching_ops ≡ false
    → rank (aggregate m joins owned_ops watching_ops).health
      ≡ worst 0 (raises (owned_raises m joins) owned_ops ++ raises watching_raises watching_ops)
unfolding aggregate rank
aggregate-rank m joins owned_ops watching_ops k n =
    let t = tally_owned m joins start_tally owned_ops in
    let w = tally_watching m joins (record t { views = [] }) watching_ops in
    let begun = raises (owned_raises m joins) owned_ops in
    let test = aggregate-views m joins owned_ops watching_ops k n in
    let health =
      tally_watching-health m joins (record t { views = [] }) watching_ops
      ∙ ap (λ h. raise_all h (raises watching_raises watching_ops))
          (tally_owned-health m joins start_tally owned_ops)
      ∙ sym (raise_all-append Scope.healthy begun (raises watching_raises watching_ops)) in
    rw test
      (ap rank health ∙ rank-raise_all Scope.healthy (begun ++ raises watching_raises watching_ops))
