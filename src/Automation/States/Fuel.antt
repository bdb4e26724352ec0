-- ===== src/Automation/States/Fuel.antt =====
-- The fuel of `derive` is enough.
use systemd_ops.Base.{
  ℕ, zero, suc, ◌+◌, ◌≤◌, ◌<◌, ◌≡◌, refl, sym, ap, subst, inl, inr, Bool, false, Option, none, some,
  List, [], ◌∷◌, arith, if◌then◌else◌, Bool-cases, Option-cases, length, any, All, Str, codes,
  str_eq, str_eq_iff, str_eq_refl,
}
use std.Path.{fun_ext}
use systemd_ops.Json.{Value, get_str}
use systemd_ops.Automation.States.{Memo, memo_get, later, has_unit, find_operation, visit, derive}

abbrev IsFound : List Value → Str → Type 0
IsFound ops unit = (operation : Value) × (find_operation ops unit ≡ some operation)

-- No unit is visited twice.
abbrev IsPath : List Str → Type 0
IsPath [] = Unit
IsPath (u ∷ us) = (any (λ v. str_eq v u) us ≡ false) × IsPath us

abbrev others : Str → List Str → List Str
others u [] = []
others u (v ∷ us) = let rest = others u us in if str_eq v u then rest else v ∷ rest

others-length :
    (u : Str) (us : List Str) → any (λ v. str_eq v u) us ≡ false → length (others u us) ≡ length us
others-length u [] h = refl
others-length u (v ∷ us) h = ground (arith, others-length u us)

others-length_one : (u : Str) (us : List Str) → IsPath us → length us ≤ suc (length (others u us))
others-length_one u [] h = omega arith
others-length_one u (v ∷ us) h = elim (Bool-cases (str_eq v u)) [
  | inl y ↦
      let none_left = subst (λ w. any (λ x. str_eq x w) us ≡ false) ((str_eq_iff v u).0 y) h.0 in
      ground (arith, others-length u us none_left)
  | inr n ↦ ground (arith, others-length_one u us h.1)
]

others-any :
    (u v : Str) (us : List Str)
    → any (λ w. str_eq w v) us ≡ false
    → any (λ w. str_eq w v) (others u us) ≡ false
others-any u v [] h = refl
others-any u v (x ∷ us) h = ground (arith, others-any u v us)

others-IsPath : (u : Str) (us : List Str) → IsPath us → IsPath (others u us)
others-IsPath u [] h = tt
others-IsPath u (v ∷ us) h = elim (Bool-cases (str_eq v u)) [
  | inl y ↦ rw y (others-IsPath u us h.1)
  | inr n ↦ rw n (others-any u v us h.0, others-IsPath u us h.1)
]

-- A unit that another operation has.
later_found :
    (o : Option Value) (b : Bool) (operation : Value) {found : Value}
    → b ≡ false
    → later o (if b then some operation else none) ≡ some found
    → o ≡ some found
later_found none b operation e h = let h2 = rw e at h in cc
later_found (some v) b operation e h = h

behind_operation :
    (operation : Value) (ops : List Value) (u : Str)
    → has_unit u operation ≡ false
    → IsFound (operation ∷ ops) u
    → IsFound ops u
unfolding find_operation
behind_operation operation ops u n (found, e) =
    (found, later_found (find_operation ops u) (has_unit u operation) operation n e)

nameless_rest :
    (operation : Value) (ops : List Value) (us : List Str)
    → get_str operation (codes "unit") ≡ none
    → All (IsFound (operation ∷ ops)) us
    → All (IsFound ops) us
nameless_rest operation ops [] n f = tt
nameless_rest operation ops (u ∷ us) n f =
    (behind_operation operation ops u (rw n refl) f.0, nameless_rest operation ops us n f.1)

str_eq-flip : (u v : Str) → str_eq v u ≡ false → str_eq u v ≡ false
str_eq-flip u v n = elim (Bool-cases (str_eq u v)) [
  | inl y ↦
      let e = (str_eq_iff u v).0 y in
      let r = str_eq_refl u in let n2 = subst (λ w. str_eq w u ≡ false) (sym e) n in cc
  | inr m ↦ m
]

others_rest :
    (operation : Value) (ops : List Value) (name : Str) (us : List Str)
    → get_str operation (codes "unit") ≡ some name
    → All (IsFound (operation ∷ ops)) us
    → All (IsFound ops) (others name us)
others_rest operation ops name [] n f = tt
others_rest operation ops name (u ∷ us) n f = elim (Bool-cases (str_eq u name)) [
  | inl y ↦ rw y (others_rest operation ops name us n f.1)
  | inr m ↦
      let apart = str_eq-flip name u m in
      rw m
        (behind_operation operation ops u (rw n apart) f.0, others_rest operation ops name us n f.1)
]

-- Different units belong to different operations.
path_short :
    (ops : List Value) (us : List Str) → IsPath us → All (IsFound ops) us → length us ≤ length ops
unfolding find_operation
path_short [] [] p f = omega arith
path_short [] (u ∷ us) p f = let (found, e) = f.0 in cc
path_short (operation ∷ ops) us p f = elim (Option-cases (get_str operation (codes "unit"))) [
  | inl n ↦ omega (arith, path_short ops us p (nameless_rest operation ops us n f))
  | inr (name, n) ↦ omega (
    arith,
    others-length_one name us p,
    path_short ops (others name us) (others-IsPath name us p)
        (others_rest operation ops name us n f),
  )
]

derive_same :
    (ops : List Value) (visiting : List Str) (a b : ℕ) (memo : Memo) (unit : Str)
    → IsPath visiting
    → All (IsFound ops) visiting
    → length ops < a + length visiting
    → length ops < b + length visiting
    → derive a ops visiting memo unit ≡ derive b ops visiting memo unit
unfolding derive
derive_same ops visiting zero b memo unit p f h k =
    absurd (omega (arith, path_short ops visiting p f))
derive_same ops visiting (suc a) zero memo unit p f h k =
    absurd (omega (arith, path_short ops visiting p f))
derive_same ops visiting (suc a) (suc b) memo unit p f h k =
    elim (Option-cases (memo_get unit memo)) [
      | inr (s, e) ↦ rw e refl
      | inl n ↦ elim (Bool-cases (any (λ v. str_eq v unit) visiting)) [
        | inl y ↦ rw (n, y) refl
        | inr v ↦ elim (Option-cases (find_operation ops unit)) [
          | inl e ↦ rw (n, v, e) refl
          | inr (operation, e) ↦
              rw (n, v)
                (ap (λ d. visit ops d unit memo (find_operation ops unit))
                  (fun_ext (λ m. fun_ext (λ u.
                    derive_same ops (unit ∷ visiting) a b m u (v, p) ((operation, e), f)
                      (omega arith) (omega arith)))))
        ]
      ]
    ]

-- The fuel is enough: with any more of it than there are operations, a state is derived alike.
pub derive_enough :
    (ops : List Value) (fuel : ℕ) (memo : Memo) (unit : Str)
    → length ops < fuel
    → derive fuel ops [] memo unit ≡ derive (suc (length ops)) ops [] memo unit
derive_enough ops fuel memo unit h =
    derive_same ops [] fuel (suc (length ops)) memo unit tt tt (omega arith) (omega arith)
