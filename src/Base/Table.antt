-- ===== src/Base/Table.antt =====
-- The keyed containers of the client (`AVLHashT`, `AVLTreeT`), seen as their entries in the order of
-- iteration. Keys are compared by an instance of `Eq`.
use Prim.Native.Nat.{ℕ}
use Prim.Native.String.{String}
use mathlib.Core.Path.{◌≡◌, refl}
use mathlib.Core.Logic.{◌↔◌}
use mathlib.Core.Bool.{Bool, true}
use mathlib.Core.Option.{Option, none, some}
use mathlib.Core.List.{List, [], ◌∷◌}
use native.Mathlib.Omega.{arith}
use text.Mathlib.Text.{◌==◌ as str_eq}
use text.Mathlib.TextEquality.{eq_iff}
use easygametools.Base.Tests.{◌==◌ as nat_beq, ==_iff, if◌then◌else◌}
use easygametools.Base.Text.{Bytes, strcmp_eq, strcmp_eq_iff}

pub record Eq {ℓ} (K : Type ℓ) : Type ℓ where
  pub beq : K → K → Bool
  pub beq_iff : (a b : K) → (beq a b ≡ true) ↔ (a ≡ b)

instance abbrev pub nat_eq : Eq ℕ
nat_eq = record { beq = nat_beq; beq_iff = ==_iff }

instance abbrev pub string_eq : Eq String
string_eq = record { beq = str_eq; beq_iff = eq_iff }

instance abbrev pub bytes_eq : Eq Bytes
bytes_eq = record { beq = strcmp_eq; beq_iff = strcmp_eq_iff }

abbrev pub Table {ℓ κ} : Type ℓ → Type κ → Type (ℓ ⊔ κ)
Table K V = List (K × V)

pub beq_refl {ℓ} : {K : Type ℓ} ⦃e : Eq K⦄ (k : K) → e.beq k k ≡ true
beq_refl ⦃e⦄ k = (e.beq_iff k k).1 refl

module _ {ℓ κ} {K : Type ℓ} {V : Type κ} ⦃e : Eq K⦄ where
  -- `findValue`
  unfoldable pub lookup : K → Table K V → Option V
  lookup k [] = none
  lookup k ((j, v) ∷ t) = if e.beq j k then some v else lookup k t

  -- `insertKeyAndValue` replaces the value of a key that is there.
  unfoldable pub insert : K → V → Table K V → Table K V
  insert k v [] = (k, v) ∷ []
  insert k v ((j, w) ∷ t) = if e.beq j k then (j, v) ∷ t else (j, w) ∷ insert k v t

  -- `remove`
  unfoldable pub remove : K → Table K V → Table K V
  remove k [] = []
  remove k ((j, w) ∷ t) = let rest = remove k t in if e.beq j k then rest else (j, w) ∷ rest

  pub lookup-insert :
      (k j : K) (v : V) (t : Table K V)
      → lookup j (insert k v t) ≡ (if e.beq k j then some v else lookup j t)
  unfolding lookup insert
  lookup-insert k j v [] = refl
  lookup-insert k j v ((i, w) ∷ t) =
      ground (arith, e.beq_iff i k, e.beq_iff i j, e.beq_iff k j, lookup-insert k j v t)

  pub lookup-remove :
      (k j : K) (t : Table K V) → lookup j (remove k t) ≡ (if e.beq k j then none else lookup j t)
  unfolding lookup remove
  lookup-remove k j [] = ground arith
  lookup-remove k j ((i, w) ∷ t) =
      ground (arith, e.beq_iff i k, e.beq_iff i j, e.beq_iff k j, lookup-remove k j t)

  pub lookup-insert_self : (k : K) (v : V) (t : Table K V) → lookup k (insert k v t) ≡ some v
  lookup-insert_self k v t = rw (lookup-insert k k v t, beq_refl k)

-- What a table of pointers has at a key: an entry with a null pointer counts as none.
abbrev pub entry {ℓ} : {A : Type ℓ} → Option (Option A) → Option A
entry none = none
entry (some v) = v

pub ruleset table_laws = (lookup-insert, lookup-remove, beq_refl)
