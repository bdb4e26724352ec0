-- ===== src/Automation/States/Ready.antt =====
-- An operation that is ready is so for a reason.
use systemd_ops.Base.{
  ℕ, zero, suc, ◌≡◌, refl, sym, ap, ◌∙◌, subst, ◌≢◌, inl, inr, Bool, true, false, Option, none,
  some, List, [], ◌∷◌, arith, Bool-cases, Option-cases, length, any, All, Str, str_eq, str_eq_iff,
  str_eq_refl,
}
use systemd_ops.Json.{Value}
use systemd_ops.Automation.Currency.{
  active_iteration, blocker_is_current, checkpoint_is_current, agent_backed,
}
use systemd_ops.Automation.States.{
  SemanticState, neutral, running, blocked, waiting, ready, stale, Memo, memo_get, find_operation,
  active_children, Derive, after_child, any_unready, settled, state_of, remember, visit, derive,
  derive_all, semantic_states,
}

-- The states that are known of a list of units are all ready.
abbrev pub AllReady : Memo → List Str → Type 0
AllReady memo units = All (λ u. memo_get u memo ≡ some ready) units

-- An operation with an agent and no iteration, no current blocker, a current checkpoint, and only
-- ready ones among its children that are not completed.
pub record IsReady (ops : List Value) (memo : Memo) (unit : Str) : Type 0 where
  pub operation : Value
  pub found : find_operation ops unit ≡ some operation
  pub backed : agent_backed operation ≡ true
  pub idle : active_iteration operation ≡ false
  pub unblocked : blocker_is_current operation ≡ false
  pub checkpointed : checkpoint_is_current operation ≡ true
  pub children_ready : AllReady memo (active_children ops unit)

abbrev pub Justified : List Value → Memo → Type 0
Justified ops memo = (unit : Str) → memo_get unit memo ≡ some ready → IsReady ops memo unit

-- What is known stays known.
abbrev Extends : Memo → Memo → Type 0
Extends memo memo' =
    (unit : Str) (s : SemanticState) → memo_get unit memo ≡ some s → memo_get unit memo' ≡ some s

-- The units that are being visited are not remembered meanwhile.
abbrev Visited : List Str → Str → Type 0
Visited visiting unit = any (λ v. str_eq v unit) visiting ≡ true

record Grows (ops : List Value) (visiting : List Str) (memo memo' : Memo) : Type 0 where
  justified : Justified ops memo → Justified ops memo'
  extends : Extends memo memo'
  fixed : (unit : Str) → Visited visiting unit → memo_get unit memo' ≡ memo_get unit memo

Grows-refl : (ops : List Value) (visiting : List Str) (memo : Memo) → Grows ops visiting memo memo
Grows-refl ops visiting memo = record {
  justified = λ j. j;
  extends = λ u s h. h;
  fixed = λ u h. refl;
}

Grows-trans :
    (ops : List Value) (visiting : List Str) (a b c : Memo)
    → Grows ops visiting a b
    → Grows ops visiting b c
    → Grows ops visiting a c
Grows-trans ops visiting a b c g h = record {
  justified = λ j. h.justified (g.justified j);
  extends = λ u s e. h.extends u s (g.extends u s e);
  fixed = λ u v. h.fixed u v ∙ g.fixed u v;
}

AllReady-Extends :
    (memo memo' : Memo) (units : List Str)
    → Extends memo memo'
    → AllReady memo units
    → AllReady memo' units
AllReady-Extends memo memo' [] e h = tt
AllReady-Extends memo memo' (u ∷ units) e h =
    (e u ready h.0, AllReady-Extends memo memo' units e h.1)

IsReady-Extends :
    (ops : List Value) (memo memo' : Memo) (unit : Str)
    → Extends memo memo'
    → IsReady ops memo unit
    → IsReady ops memo' unit
IsReady-Extends ops memo memo' unit e h = record {
  operation = h.operation;
  found = h.found;
  backed = h.backed;
  idle = h.idle;
  unblocked = h.unblocked;
  checkpointed = h.checkpointed;
  children_ready = AllReady-Extends memo memo' (active_children ops unit) e h.children_ready;
}

-- What a derivation promises.
record Derives (ops : List Value) (visiting : List Str) (memo : Memo) (unit : Str)
    (r : SemanticState × Memo) : Type 0 where
  grows : Grows ops visiting memo r.1
  known : r.0 ≡ ready → memo_get unit r.1 ≡ some ready

abbrev DerivesAll : List Value → List Str → Derive → Type 0
DerivesAll ops visiting f =
    (memo : Memo) (unit : Str) → Derives ops visiting memo unit (f memo unit)

record Checks (ops : List Value) (visiting : List Str) (memo : Memo) (units : List Str)
    (r : Bool × Memo) : Type 0 where
  grows : Grows ops visiting memo r.1
  ready_all : r.0 ≡ false → AllReady r.1 units

after_child-Checks :
    (ops : List Value) (visiting : List Str) (f : Derive) (memo : Memo) (child : Str)
    (rest : List Str) (r : SemanticState × Memo)
    → Derives ops visiting memo child r
    → ((m : Memo) → Checks ops visiting m rest (any_unready f rest m))
    → Checks ops visiting memo (child ∷ rest) (after_child f (any_unready f rest) r)
after_child-Checks ops visiting f memo child rest (ready, m) d k =
    let more = k m in
    record {
      grows = Grows-trans ops visiting memo m (any_unready f rest m).1 d.grows more.grows;
      ready_all = λ h. (more.grows.extends child ready (d.known refl), more.ready_all h);
    }
after_child-Checks ops visiting f memo child rest (neutral, m) d k = record {
  grows = d.grows;
  ready_all = λ h. cc;
}
after_child-Checks ops visiting f memo child rest (running, m) d k = record {
  grows = d.grows;
  ready_all = λ h. cc;
}
after_child-Checks ops visiting f memo child rest (blocked, m) d k = record {
  grows = d.grows;
  ready_all = λ h. cc;
}
after_child-Checks ops visiting f memo child rest (waiting, m) d k = record {
  grows = d.grows;
  ready_all = λ h. cc;
}
after_child-Checks ops visiting f memo child rest (stale, m) d k = record {
  grows = d.grows;
  ready_all = λ h. cc;
}

any_unready-Checks :
    (ops : List Value) (visiting : List Str) (f : Derive) (units : List Str) (memo : Memo)
    → DerivesAll ops visiting f
    → Checks ops visiting memo units (any_unready f units memo)
unfolding any_unready
any_unready-Checks ops visiting f [] memo k = record {
  grows = Grows-refl ops visiting memo;
  ready_all = λ h. tt;
}
any_unready-Checks ops visiting f (child ∷ rest) memo k =
    after_child-Checks ops visiting f memo child rest (f memo child) (k memo child)
      (λ m. any_unready-Checks ops visiting f rest m k)

-- What the state of an operation that is being visited promises.
record Settles (ops : List Value) (visiting : List Str) (memo : Memo) (operation : Value)
    (unit : Str) (r : SemanticState × Memo) : Type 0 where
  grows : Grows ops visiting memo r.1
  backed : r.0 ≡ ready → agent_backed operation ≡ true
  idle : r.0 ≡ ready → active_iteration operation ≡ false
  unblocked : r.0 ≡ ready → blocker_is_current operation ≡ false
  checkpointed : r.0 ≡ ready → checkpoint_is_current operation ≡ true
  children_ready : r.0 ≡ ready → AllReady r.1 (active_children ops unit)

-- A state that is not ready promises nothing more.
Settles-other :
    (ops : List Value) (visiting : List Str) (memo : Memo) (operation : Value) (unit : Str)
    (s : SemanticState) (m : Memo)
    → Grows ops visiting memo m
    → s ≢ ready
    → Settles ops visiting memo operation unit (s, m)
Settles-other ops visiting memo operation unit s m g n = record {
  grows = g;
  backed = λ h. absurd (n h);
  idle = λ h. absurd (n h);
  unblocked = λ h. absurd (n h);
  checkpointed = λ h. absurd (n h);
  children_ready = λ h. absurd (n h);
}

settled-Settles :
    (ops : List Value) (visiting : List Str) (memo : Memo) (operation : Value) (unit : Str)
    (r : Bool × Memo)
    → Checks ops visiting memo (active_children ops unit) r
    → agent_backed operation ≡ true
    → active_iteration operation ≡ false
    → blocker_is_current operation ≡ false
    → Settles ops visiting memo operation unit (settled operation r)
settled-Settles ops visiting memo operation unit (true, m) c a b d =
    Settles-other ops visiting memo operation unit waiting m c.grows (λ h. cc)
settled-Settles ops visiting memo operation unit (false, m) c a b d =
    elim (Bool-cases (checkpoint_is_current operation)) [
      | inl y ↦ rw y (record {
        grows = c.grows;
        backed = λ h. a;
        idle = λ h. b;
        unblocked = λ h. d;
        checkpointed = λ h. y;
        children_ready = λ h. c.ready_all refl;
      })
      | inr n ↦ rw n (Settles-other ops visiting memo operation unit stale m c.grows (λ h. cc))
    ]

state_of-Settles :
    (ops : List Value) (visiting : List Str) (f : Derive) (operation : Value) (unit : Str)
    (memo : Memo)
    → DerivesAll ops visiting f
    → Settles ops visiting memo operation unit (state_of ops f operation unit memo)
unfolding state_of
state_of-Settles ops visiting f operation unit memo k =
    let same = Grows-refl ops visiting memo in
    elim (Bool-cases (agent_backed operation)) [
      | inr n ↦ rw n (Settles-other ops visiting memo operation unit neutral memo same (λ h. cc))
      | inl a ↦ elim (Bool-cases (active_iteration operation)) [
        | inl y ↦
            rw (a, y) (Settles-other ops visiting memo operation unit running memo same (λ h. cc))
        | inr b ↦ elim (Bool-cases (blocker_is_current operation)) [
          | inl y ↦
              rw (a, b, y)
                (Settles-other ops visiting memo operation unit blocked memo same (λ h. cc))
          | inr d ↦
              rw (a, b, d)
                (settled-Settles ops visiting memo operation unit
                  (any_unready f (active_children ops unit) memo)
                  (any_unready-Checks ops visiting f (active_children ops unit) memo k) a b d)
        ]
      ]
    ]

remember-Extends :
    (unit : Str) (s : SemanticState) (m : Memo) → memo_get unit m ≡ none → Extends m ((unit, s) ∷ m)
unfolding memo_get
remember-Extends unit s m n v x h = elim (Bool-cases (str_eq unit v)) [
  | inl y ↦ let e = (str_eq_iff unit v).0 y in cc
  | inr y ↦ rw y h
]

visiting_other :
    (visiting : List Str) (unit v : Str)
    → any (λ w. str_eq w unit) visiting ≡ false
    → Visited visiting v
    → str_eq unit v ≡ false
visiting_other visiting unit v n h = elim (Bool-cases (str_eq unit v)) [
  | inl y ↦
      let e = (str_eq_iff unit v).0 y in
      let h2 = subst (λ w. any (λ x. str_eq x w) visiting ≡ true) (sym e) h in cc
  | inr y ↦ y
]

remember-Derives :
    (ops : List Value) (visiting : List Str) (memo : Memo) (operation : Value) (unit : Str)
    (r : SemanticState × Memo)
    → find_operation ops unit ≡ some operation
    → memo_get unit memo ≡ none
    → any (λ w. str_eq w unit) visiting ≡ false
    → Settles ops (unit ∷ visiting) memo operation unit r
    → Derives ops visiting memo unit (remember unit r)
unfolding memo_get
remember-Derives ops visiting memo operation unit (s, m) f n v g =
    let absent = g.grows.fixed unit (ground (arith, str_eq_refl unit)) ∙ n in
    let more = remember-Extends unit s m absent in
    record {
      grows = record {
        justified = λ j u h. elim (Bool-cases (str_eq unit u)) [
          | inl y ↦
              let same = rw y at h in
              let e : s ≡ ready = cc in
              subst (IsReady ops ((unit, s) ∷ m)) ((str_eq_iff unit u).0 y) (record {
                operation = operation;
                found = f;
                backed = g.backed e;
                idle = g.idle e;
                unblocked = g.unblocked e;
                checkpointed = g.checkpointed e;
                children_ready =
                    AllReady-Extends m ((unit, s) ∷ m) (active_children ops unit) more
                      (g.children_ready e);
              })
          | inr y ↦ IsReady-Extends ops m ((unit, s) ∷ m) u more (g.grows.justified j u (rw y at h))
        ];
        extends = λ u x h. more u x (g.grows.extends u x h);
        fixed = λ u h.
            let apart = visiting_other visiting unit u v h in
            rw apart (g.grows.fixed u (ground arith));
      };
      known = λ h. rw (str_eq_refl unit) (ap some h);
    }

Derives-stale :
    (ops : List Value) (visiting : List Str) (memo : Memo) (unit : Str)
    → Derives ops visiting memo unit (stale, memo)
Derives-stale ops visiting memo unit = record {
  grows = Grows-refl ops visiting memo;
  known = λ h. cc;
}

visit-Derives :
    (ops : List Value) (visiting : List Str) (f : Derive) (unit : Str) (memo : Memo)
    (o : Option Value)
    → find_operation ops unit ≡ o
    → memo_get unit memo ≡ none
    → any (λ w. str_eq w unit) visiting ≡ false
    → DerivesAll ops (unit ∷ visiting) f
    → Derives ops visiting memo unit (visit ops f unit memo o)
visit-Derives ops visiting f unit memo none e n v k = Derives-stale ops visiting memo unit
visit-Derives ops visiting f unit memo (some operation) e n v k =
    remember-Derives ops visiting memo operation unit (state_of ops f operation unit memo) e n v
      (state_of-Settles ops (unit ∷ visiting) f operation unit memo k)

derive-Derives :
    (fuel : ℕ) (ops : List Value) (visiting : List Str)
    → DerivesAll ops visiting (derive fuel ops visiting)
unfolding derive
derive-Derives zero ops visiting memo unit = Derives-stale ops visiting memo unit
derive-Derives (suc fuel) ops visiting memo unit = elim (Option-cases (memo_get unit memo)) [
  | inr (s, e) ↦ rw e (record { grows = Grows-refl ops visiting memo; known = λ h. e ∙ ap some h })
  | inl n ↦ elim (Bool-cases (any (λ v. str_eq v unit) visiting)) [
    | inl y ↦ rw (n, y) (Derives-stale ops visiting memo unit)
    | inr v ↦
        rw (n, v)
          (visit-Derives ops visiting (derive fuel ops (unit ∷ visiting)) unit memo
            (find_operation ops unit) refl n v (derive-Derives fuel ops (unit ∷ visiting)))
  ]
]

derive_all-Justified :
    (ops : List Value) (units : List Str) (memo : Memo)
    → Justified ops memo
    → Justified ops (derive_all ops units memo)
unfolding derive_all
derive_all-Justified ops [] memo j = j
derive_all-Justified ops (unit ∷ rest) memo j =
    derive_all-Justified ops rest ((derive (suc (length ops)) ops [] memo unit).1)
      ((derive-Derives (suc (length ops)) ops [] memo unit).grows.justified j)

-- In whatever order the units are visited, and whatever cycles their parents make: an operation whose
-- state is ready has an agent, no active iteration, no current blocker and a current checkpoint, and
-- those of its children that are not completed are all ready.
pub semantic_states-IsReady :
    (ops : List Value) (units : List Str) {unit : Str}
    → memo_get unit (semantic_states ops units) ≡ some ready
    → IsReady ops (semantic_states ops units) unit
unfolding semantic_states memo_get
semantic_states-IsReady ops units {unit} h = derive_all-Justified ops units [] (λ u e. cc) unit h
