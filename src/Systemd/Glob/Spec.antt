-- ===== src/Systemd/Glob/Spec.antt =====
-- What a glob means, with no order of search: a star stands for any text, `?` for one byte.
use systemd_ops.Base.{ℕ, ◌≤◌, ◌≡◌, ◌≢◌, true, ◌||◌, [], ◌∷◌, arith, ◌==◌, length, Bytes}

pub data Suffix (s : Bytes) : Bytes → Type 0 where
  here : Suffix s s
  next : {c : ℕ} {t : Bytes} → Suffix s t → Suffix s (c ∷ t)

pub data Matches : Bytes → Bytes → Type 0 where
  done : Matches [] []
  star : {x : ℕ} {p t s : Bytes} → x ≡ b'*' → Suffix s t → Matches p s → Matches (x ∷ p) t
  one :
      {x c : ℕ} {p t : Bytes}
      → x ≢ b'*'
      → (x == b'?' || x == c) ≡ true
      → Matches p t
      → Matches (x ∷ p) (c ∷ t)

pub Suffix-trans : {a b c : Bytes} → Suffix a b → Suffix b c → Suffix a c
Suffix-trans h here = h
Suffix-trans h (next k) = next (Suffix-trans h k)

pub Suffix-nil : (t : Bytes) → Suffix [] t
Suffix-nil [] = here
Suffix-nil (c ∷ t) = next (Suffix-nil t)

pub Suffix-length : {s t : Bytes} → Suffix s t → length s ≤ length t
Suffix-length here = omega arith
Suffix-length (next h) = omega (arith, Suffix-length h)

-- A star that matches a suffix matches the whole.
pub star-Suffix :
    {x : ℕ} {p s t : Bytes} → x ≡ b'*' → Suffix s t → Matches (x ∷ p) s → Matches (x ∷ p) t
star-Suffix e h (star e' k m) = star e (Suffix-trans k h) m
star-Suffix e h (one n k m) = absurd (n e)
