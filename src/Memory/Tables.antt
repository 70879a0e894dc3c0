-- ===== src/Memory/Tables.antt =====
-- The tables of Reference.cpp after one change, as seen from an address.
use easygametools.Base.{
  ℕ, ◌+◌, ◌≡◌, inl, inr, refl, sym, false, Option, some, List, [], ◌∷◌, ◌++◌, if◌then◌else◌, ◌==◌,
  ==_iff, ==_refl, Bool-cases, arith,
}
use easygametools.Base.Table.{Table, nat_eq, lookup, insert, remove, lookup-insert, lookup-remove}
use easygametools.Memory.{Cell, put_cell, bucket}
use easygametools.Base.Occurrences.{points, occurrences-append}
use easygametools.Memory.Sound.{only_at, in_bucket, has_id, Distinct}

-- The table of the objects, at the address that is set and at the others.
pub put_cell-here : (p : ℕ) (o : Option Cell) (cells : ℕ → Option Cell) → put_cell p o cells p ≡ o
put_cell-here p o cells = rw (==_refl p) refl

pub put_cell-there :
    (p q : ℕ) (o : Option Cell) (cells : ℕ → Option Cell)
    → (p == q) ≡ false
    → put_cell p o cells q ≡ cells q
put_cell-there p q o cells h = rw h refl

-- The tables after one change, as seen from an address.
pub bucket-add :
    (q p z s : ℕ) (d : Table ℕ (List ℕ))
    → in_bucket q (insert z (bucket z d ++ p ∷ []) d) s
      ≡ in_bucket q d s + (if p == q then only_at z 1 s else 0)
bucket-add q p z s d = elim (Bool-cases (z == s)) [
  | inl same ↦
      rw
        (
          lookup-insert z s (bucket z d ++ p ∷ []) d,
          same,
          occurrences-append q (bucket z d) (p ∷ []),
          (==_iff z s).0 same,
        )
        (ground arith)
  | inr apart ↦ rw (lookup-insert z s (bucket z d ++ p ∷ []) d, apart) (ground arith)
]

pub bucket-take :
    (q p z s : ℕ) (rest : List ℕ) (d : Table ℕ (List ℕ))
    → bucket z d ≡ p ∷ rest
    → in_bucket q (insert z rest d) s + (if p == q then only_at z 1 s else 0) ≡ in_bucket q d s
bucket-take q p z s rest d h = elim (Bool-cases (z == s)) [
  | inl same ↦
      let here : bucket s d ≡ p ∷ rest = rw (sym ((==_iff z s).0 same)) h in
      rw (lookup-insert z s rest d, same, here) (ground arith)
  | inr apart ↦ rw (lookup-insert z s rest d, apart) (ground arith)
]

pub has_id-remove :
    (q id i : ℕ) (t : Table ℕ ℕ) → has_id q (remove id t) i ≡ (if id == i then 0 else has_id q t i)
has_id-remove q id i t = rw (lookup-remove id i t) (ground arith)

pub has_id-insert :
    (q p id i : ℕ) (t : Table ℕ ℕ)
    → has_id q (insert id p t) i ≡ (if id == i then points q (some p) else has_id q t i)
has_id-insert q p id i t = rw (lookup-insert id i p t) (ground arith)

pub Distinct-insert {ℓ} :
    {V : Type ℓ} (k : ℕ) (v : V) (t : Table ℕ V) → Distinct t → Distinct (insert k v t)
unfolding insert lookup
Distinct-insert k v [] h = (refl, tt)
Distinct-insert k v ((j, w) ∷ t) (h0, h1) =
    ground (arith, ==_iff j k, ==_iff k j, lookup-insert k j v t, Distinct-insert k v t h1)

pub Distinct-remove {ℓ} : {V : Type ℓ} (k : ℕ) (t : Table ℕ V) → Distinct t → Distinct (remove k t)
unfolding remove lookup
Distinct-remove k [] h = tt
Distinct-remove k ((j, w) ∷ t) (h0, h1) =
    ground (arith, lookup-remove k j t, Distinct-remove k t h1)
