-- ===== src/Threads/Tables.antt =====
-- What is in a table of entries under numbers, before and after a change.
use easygametools.Base.{
  ℕ, ◌≡◌, ◌≢◌, ◌==◌, ==_iff, refl, ◌⊎◌, inl, inr, true, Option, none, some, [], ◌∷◌, arith,
  Bool-cases, All, All-weaken,
}
use easygametools.Base.Table.{
  Table, lookup, insert, remove, nat_eq, beq_refl, lookup-insert, lookup-remove,
}

-- Who is in a table after a change.
pub insert-inv :
    {V : Type 0} (k j : ℕ) (v w : V) (t : Table ℕ V)
    → lookup j (insert k v t) ≡ some w
    → ((k ≡ j) × (v ≡ w)) ⊎ ((k ≢ j) × (lookup j t ≡ some w))
insert-inv k j v w t h = ground (arith, lookup-insert k j v t, ==_iff k j)

pub remove-inv :
    {V : Type 0} (k j : ℕ) (w : V) (t : Table ℕ V)
    → lookup j (remove k t) ≡ some w
    → (k ≢ j) × (lookup j t ≡ some w)
remove-inv k j w t h = ground (arith, lookup-remove k j t, ==_iff k j)

pub insert_other :
    {V : Type 0} (k j : ℕ) (v : V) (t : Table ℕ V) → k ≢ j → lookup j (insert k v t) ≡ lookup j t
insert_other k j v t h = ground (arith, lookup-insert k j v t, ==_iff k j)

pub remove_other :
    {V : Type 0} (k j : ℕ) (t : Table ℕ V) → k ≢ j → lookup j (remove k t) ≡ lookup j t
remove_other k j t h = ground (arith, lookup-remove k j t, ==_iff k j)

pub same_value : {A : Type 0} (o : Option A) (a b : A) → o ≡ some a → o ≡ some b → a ≡ b
same_value o a b h k = cc

-- No number is twice in the table.
abbrev pub AreUnique {ℓ} : {V : Type ℓ} → Table ℕ V → Type ℓ
AreUnique [] = Unit
AreUnique ((k, v) ∷ t) = (lookup k t ≡ none) × AreUnique t

pub insert-AreUnique : (k v : ℕ) (t : Table ℕ ℕ) → AreUnique t → AreUnique (insert k v t)
unfolding insert lookup
insert-AreUnique k v [] h = (refl, tt)
insert-AreUnique k v ((j, w) ∷ t) h = elim (Bool-cases (j == k)) [
  | inl e ↦ rw e h
  | inr e ↦ rw e (
    ground (arith, e, lookup-insert k j v t, h.0, ==_iff k j, ==_iff j k),
    insert-AreUnique k v t h.1,
  )
]

pub remove-AreUnique : (k : ℕ) (t : Table ℕ ℕ) → AreUnique t → AreUnique (remove k t)
unfolding remove lookup
remove-AreUnique k [] h = tt
remove-AreUnique k ((j, w) ∷ t) h = elim (Bool-cases (j == k)) [
  | inl e ↦ rw e (remove-AreUnique k t h.1)
  | inr e ↦ rw e (ground (arith, lookup-remove k j t, h.0), remove-AreUnique k t h.1)
]

-- The entries of a table are what is found in it.
pub AreUnique-All : (t : Table ℕ ℕ) → AreUnique t → All (λ (k, v). lookup k t ≡ some v) t
unfolding lookup
AreUnique-All [] h = tt
AreUnique-All ((j, w) ∷ t) h = (
  rw (beq_refl j) refl,
  All-weaken t
      (λ (k, v) e. elim (Bool-cases (j == k)) [
        | inl e' ↦ absurd (none_some k v e e')
        | inr e' ↦ rw e' e
      ])
      (AreUnique-All t h.1),
)
  where
    none_some : (k v : ℕ) → lookup k t ≡ some v → (j == k) ≡ true → ⊥
    none_some k v e e' = absurd (ground (arith, e, e', h.0, ==_iff j k))
