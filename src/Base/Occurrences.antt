-- ===== src/Base/Occurrences.antt =====
-- How often a number stands in an option, and in a list.
use Prim.Native.Nat.{ℕ, ◌+◌}
use mathlib.Core.Path.{◌≡◌, refl, ap}
use mathlib.Core.Logic.{◌⊎◌, inl, inr}
use mathlib.Core.Option.{Option, none, some}
use mathlib.Core.List.{List, [], ◌∷◌, ◌++◌}
use native.Mathlib.Omega.{arith}
use easygametools.Base.Tests.{◌==◌, ==_iff, Bool-cases, if◌then◌else◌}

abbrev pub points : ℕ → Option ℕ → ℕ
points q none = 0
points q (some p) = if p == q then 1 else 0

pub points-one : (q : ℕ) (o : Option ℕ) → points q o ≡ 1 → o ≡ some q
points-one q none h = absurd (omega arith)
points-one q (some p) h = elim (Bool-cases (p == q)) [
  | inl same ↦ ap some ((==_iff p q).0 same)
  | inr apart ↦ absurd (ground arith)
]

pub points_self : (q : ℕ) (o : Option ℕ) → o ≡ some q → points q o ≡ 1
points_self q o h = rw h (ground arith)

pub points-cases : (q : ℕ) (o : Option ℕ) → (points q o ≡ 0) ⊎ (o ≡ some q)
points-cases q none = inl refl
points-cases q (some p) = elim (Bool-cases (p == q)) [
  | inl same ↦ inr (ap some ((==_iff p q).0 same))
  | inr apart ↦ inl (rw apart refl)
]

abbrev pub occurrences : ℕ → List ℕ → ℕ
occurrences q [] = 0
occurrences q (p ∷ ps) = (if p == q then 1 else 0) + occurrences q ps

pub occurrences-append :
    (q : ℕ) (ps qs : List ℕ) → occurrences q (ps ++ qs) ≡ occurrences q ps + occurrences q qs
occurrences-append q [] qs = omega arith
occurrences-append q (p ∷ ps) qs = omega (arith, occurrences-append q ps qs)
