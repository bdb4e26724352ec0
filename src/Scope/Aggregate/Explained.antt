-- ===== src/Scope/Aggregate/Explained.antt =====
-- A scope that is not healthy has an attention that says why not.
use systemd_ops.Base.{
  ◌≡◌, refl, sym, subst, ◌⊎◌, inl, inr, Bool, true, false, not, ◌&&◌, arith, Option, none, some,
  List, [], ◌∷◌, ◌++◌, Str, codes,
}
use mathlib.Core.List.{Memᴰ}
use mathlib.Core.List.Memᴰ
use systemd_ops.Json.{Value}
use systemd_ops.Operations.Health.{
  Health, healthy, failed, unknown, operation_health, is_wanted_inactive_timer,
}
use systemd_ops.Scope.{ScopeHealth, raise}
use systemd_ops.Scope
use systemd_ops.Scope.Manifest.{ScopeManifest}
use systemd_ops.Scope.View.{Attention, Joins, unit_of, is_completed, is_critical}
use systemd_ops.Scope.Aggregate.Laws.{KeepsSome, aggregate-views}
use systemd_ops.Scope.Aggregate.{
  health_of, owned_member, judge, judge_watching, attention_of, Tally, add_judged, add_owned,
  tally_owned, add_watching, tally_watching, is_nil, start_tally, aggregate,
}

-- An owned operation whose automation is not completed.
abbrev pub IsOpen : Joins → Value → Type 0
IsOpen joins view = is_completed (joins.join_operation (unit_of view)).0 ≡ false

-- Why a scope has a health: the operation, what it is to the scope, and what is wrong with it.
pub data Explains (m : ScopeManifest) (joins : Joins) (owned watching : List Value)
    : ScopeHealth → Attention → Type 0 where
  critical_failed :
      (view : Value)
      → Memᴰ view owned
      → IsOpen joins view
      → operation_health view ≡ failed
      → is_critical m (unit_of view) ≡ true
      → Explains m joins owned watching Scope.failed (record {
        operation = unit_of view;
        relationship = codes "owned";
        code = codes "operation_failed";
        reason = codes "failed";
      })
  owned_failed :
      (view : Value)
      → Memᴰ view owned
      → IsOpen joins view
      → operation_health view ≡ failed
      → is_critical m (unit_of view) ≡ false
      → Explains m joins owned watching Scope.degraded (record {
        operation = unit_of view;
        relationship = codes "owned";
        code = codes "operation_failed";
        reason = codes "failed";
      })
  watched_failed :
      (view : Value)
      → Memᴰ view watching
      → operation_health view ≡ failed
      → Explains m joins owned watching Scope.degraded (record {
        operation = unit_of view;
        relationship = codes "watching";
        code = codes "operation_failed";
        reason = codes "failed";
      })
  critical_unknown :
      (view : Value)
      → Memᴰ view owned
      → IsOpen joins view
      → operation_health view ≡ unknown
      → is_critical m (unit_of view) ≡ true
      → is_wanted_inactive_timer view ≡ false
      → Explains m joins owned watching Scope.unknown (record {
        operation = unit_of view;
        relationship = codes "owned";
        code = codes "operation_unknown";
        reason = codes "unknown";
      })
  critical_inactive :
      (view : Value)
      → Memᴰ view owned
      → IsOpen joins view
      → operation_health view ≡ unknown
      → is_critical m (unit_of view) ≡ true
      → is_wanted_inactive_timer view ≡ true
      → Explains m joins owned watching Scope.unknown (record {
        operation = unit_of view;
        relationship = codes "owned";
        code = codes "wanted_inactive";
        reason = codes "enabled, no future trigger";
      })

raise-cases : (a b : ScopeHealth) → (raise a b ≡ a) ⊎ (raise a b ≡ b)
unfolding raise
raise-cases a b = ground arith

module _ (m : ScopeManifest) (joins : Joins) (owned watching : List Value) where
  abbrev Explained : ScopeHealth → List Attention → Type 0
  Explained h attention =
      (h ≡ Scope.healthy)
      ⊎ ((a : Attention) × Memᴰ a attention × Explains m joins owned watching h a)

  -- What an operation raises the health to is explained by the attention that it gets.
  abbrev Judged : Str → Str → Option ScopeHealth × Option (Str × Str) → Type 0
  Judged unit relationship judged =
      (judged.0 ≡ none)
      ⊎ ((h : ScopeHealth) × (label : Str × Str) × (judged ≡ (some h, some label))
          × Explains m joins owned watching h (attention_of unit relationship label))

  open-Judged :
      (view : Value)
      → Memᴰ view owned
      → IsOpen joins view
      → (h : Health) → operation_health view ≡ h
      → (critical : Bool) → is_critical m (unit_of view) ≡ critical
      → (wanted : Bool) → is_wanted_inactive_timer view ≡ wanted
      → Judged (unit_of view) (codes "owned") (judge h critical wanted)
  unfolding judge
  open-Judged view x o healthy e critical c wanted t = inl refl
  open-Judged view x o failed e true c wanted t = inr (_, _, refl, critical_failed view x o e c)
  open-Judged view x o failed e false c wanted t = inr (_, _, refl, owned_failed view x o e c)
  open-Judged view x o unknown e true c true t = inr (_, _, refl, critical_inactive view x o e c t)
  open-Judged view x o unknown e true c false t = inr (_, _, refl, critical_unknown view x o e c t)
  open-Judged view x o unknown e false c true t = inl refl
  open-Judged view x o unknown e false c false t = inl refl

  owned-Judged :
      (view : Value)
      → Memᴰ view owned
      → (completed : Bool) → is_completed (joins.join_operation (unit_of view)).0 ≡ completed
      → Judged (unit_of view) (codes "owned") (
          judge
            (health_of completed view)
            (is_critical m (unit_of view))
            (not completed && is_wanted_inactive_timer view))
  unfolding judge
  owned-Judged view x true e = inl refl
  owned-Judged view x false e =
      open-Judged view x e (operation_health view) refl (is_critical m (unit_of view)) refl
        (is_wanted_inactive_timer view) refl

  watching-Judged :
      (view : Value)
      → Memᴰ view watching
      → (h : Health) → operation_health view ≡ h
      → Judged (unit_of view) (codes "watching") (judge_watching h)
  watching-Judged view x healthy e = inl refl
  watching-Judged view x failed e = inr (_, _, refl, watched_failed view x e)
  watching-Judged view x unknown e = inl refl

  Explained-append : (h : ScopeHealth) (a b : List Attention) → Explained h a → Explained h (a ++ b)
  Explained-append h a b (inl e) = inl e
  Explained-append h a b (inr (x, at, e)) = inr (x, Memᴰ.append_left b at, e)

  raised-Explained :
      (t : Tally) (unit relationship : Str) (h : ScopeHealth) (label : Str × Str)
      → Explains m joins owned watching h (attention_of unit relationship label)
      → Explained t.health t.attention
      → Explained (raise t.health h) (t.attention ++ attention_of unit relationship label ∷ [])
  raised-Explained t unit relationship h label why g =
      let a = attention_of unit relationship label in
      elim (raise-cases t.health h) [
        | inl old ↦ rw old (Explained-append t.health t.attention (a ∷ []) g)
        | inr new ↦ rw new (inr (a, Memᴰ.append_right t.attention (Memᴰ.head refl), why))
      ]

  add_judged-Explained :
      (t : Tally) (unit relationship : Str) (judged : Option ScopeHealth × Option (Str × Str))
      → Judged unit relationship judged
      → Explained t.health t.attention
      → (let t' = add_judged t unit relationship judged in Explained t'.health t'.attention)
  add_judged-Explained t unit relationship (h, label) (inl e) g =
      rw e (Explained-append t.health t.attention _ g)
  add_judged-Explained t unit relationship judged (inr (h, label, e, why)) g =
      subst (λ j. let t' = add_judged t unit relationship j in Explained t'.health t'.attention)
        (sym e) (raised-Explained t unit relationship h label why g)

  tally_owned-Explained :
      (t : Tally) (ops : List Value)
      → ((view : Value) → Memᴰ view ops → Memᴰ view owned)
      → Explained t.health t.attention
      → (let t' = tally_owned m joins t ops in Explained t'.health t'.attention)
  unfolding tally_owned add_owned owned_member
  tally_owned-Explained t [] k g = g
  tally_owned-Explained t (view ∷ ops) k g =
      let member = owned_member m joins view in
      let judged = judge member.health member.critical member.wanted_inactive in
      let why = owned-Judged view (k view (Memᴰ.head refl)) _ refl in
      let one = add_judged-Explained t member.unit (codes "owned") judged why g in
      tally_owned-Explained (add_owned t member) ops (λ v x. k v (Memᴰ.tail x))
        (Explained-append _ _ _ one)

  tally_watching-Explained :
      (t : Tally) (ops : List Value)
      → ((view : Value) → Memᴰ view ops → Memᴰ view watching)
      → Explained t.health t.attention
      → (let t' = tally_watching m joins t ops in Explained t'.health t'.attention)
  unfolding tally_watching add_watching
  tally_watching-Explained t [] k g = g
  tally_watching-Explained t (view ∷ ops) k g =
      tally_watching-Explained (add_watching m joins t view) ops (λ v x. k v (Memᴰ.tail x))
        (add_judged-Explained t (unit_of view) (codes "watching")
          (judge_watching (operation_health view))
          (watching-Judged view (k view (Memᴰ.head refl)) (operation_health view) refl) g)

-- A scope with an operation, whose joins keep some, is healthy or has an attention that says why not:
-- it names an operation and how it belongs to the scope; for a failed scope a critical one that
-- failed, for a degraded one another owned one or a watched one that failed, for an unknown one a
-- critical one that is unknown, with its own code and reason for a wanted timer that is inactive. An
-- owned operation whose automation is completed is no reason.
pub aggregate-Explains :
    (m : ScopeManifest) (joins : Joins) (owned_ops watching_ops : List Value)
    → KeepsSome joins
    → is_nil owned_ops && is_nil watching_ops ≡ false
    → ((aggregate m joins owned_ops watching_ops).health ≡ Scope.healthy)
      ⊎ ((a : Attention) × Memᴰ a (aggregate m joins owned_ops watching_ops).attention
          × Explains m joins owned_ops watching_ops
              (aggregate m joins owned_ops watching_ops).health
              a)
unfolding aggregate
aggregate-Explains m joins owned_ops watching_ops k n =
    let t = tally_owned m joins start_tally owned_ops in
    let test = aggregate-views m joins owned_ops watching_ops k n in
    rw test (
      tally_watching-Explained m joins owned_ops watching_ops (record t { views = [] }) watching_ops
        (λ v x. x)
        (tally_owned-Explained m joins owned_ops watching_ops start_tally owned_ops (λ v x. x)
          (inl refl)))
