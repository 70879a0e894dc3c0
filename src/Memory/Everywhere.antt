-- ===== src/Memory/Everywhere.antt =====
-- The objects of a sound memory of Reference.cpp as one list: the pool and the live.
use easygametools.Base.{
  ℕ, ◌+◌, ◌≡◌, refl, ◌∙◌, inl, inr, Option, none, some, List, [], ◌∷◌, ◌++◌, if◌then◌else◌, ◌==◌,
  Option-cases, arith,
}
use easygametools.Base.Table.{Table, nat_eq, lookup}
use easygametools.Memory.{Cell, Memory}
use easygametools.Base.Occurrences.{occurrences, occurrences-append}
use easygametools.Memory.Sound.{
  Status, live_weight, pool_weight, own_size, only_at, in_bucket, has_id, counts, Placed-found,
  PlacedAt-absent, Sound,
}
use easygametools.Memory.Listing.{weigh, total, total_only}

abbrev pub exists_at : Option Cell → ℕ
exists_at none = 0
exists_at (some c) = 1

-- The objects of the pool, and the live ones.
abbrev pub pool : Table ℕ (List ℕ) → List ℕ
pool [] = []
pool ((size, ps) ∷ t) = ps ++ pool t

abbrev pub lives : Table ℕ ℕ → List ℕ
lives [] = []
lives ((id, p) ∷ t) = p ∷ lives t

pool-total : (q : ℕ) (t : Table ℕ (List ℕ)) → occurrences q (pool t) ≡ total (occurrences q) t
pool-total q [] = refl
pool-total q ((size, ps) ∷ t) = omega (arith, occurrences-append q ps (pool t), pool-total q t)

abbrev one_of : ℕ → ℕ → ℕ
one_of q p = if p == q then 1 else 0

lives-total : (q : ℕ) (t : Table ℕ ℕ) → occurrences q (lives t) ≡ total (one_of q) t
lives-total q [] = refl
lives-total q ((id, p) ∷ t) = omega (arith, lives-total q t)

bucket-weigh :
    (q s : ℕ) (t : Table ℕ (List ℕ)) → weigh (occurrences q) (lookup s t) ≡ in_bucket q t s
bucket-weigh q s t = elim (Option-cases (lookup s t)) [
  | inl absent ↦ rw absent refl
  | inr (ps, found) ↦ rw found refl
]

id-weigh : (q i : ℕ) (t : Table ℕ ℕ) → weigh (one_of q) (lookup i t) ≡ has_id q t i
id-weigh q i t = elim (Option-cases (lookup i t)) [
  | inl absent ↦ rw absent refl
  | inr (p, found) ↦ rw found refl
]

one_place : (s : Status) (z : ℕ) → none ≡ own_size s z → pool_weight s + live_weight s ≡ 1
one_place Status.living z h = refl
one_place Status.pooled z h = refl
one_place Status.between z h = absurd cc

places_total :
    (m : Memory) (q z n y k : ℕ)
    → Sound m
    → ((s : ℕ) → in_bucket q m.dead s ≡ only_at z n s)
    → ((i : ℕ) → has_id q m.live i ≡ only_at y k i)
    → occurrences q (pool m.dead ++ lives m.live) ≡ n + k
places_total m q z n y k h hb hi = omega (
  arith,
  occurrences-append q (pool m.dead) (lives m.live),
  pool-total q m.dead,
  lives-total q m.live,
  total_only (occurrences q) z n m.dead h.dead_keys (λ s. bucket-weigh q s m.dead ∙ hb s),
  total_only (one_of q) y k m.live h.live_keys (λ i. id-weigh q i m.live ∙ hi i),
)

-- In a sound memory every object stands once in the pool or among the live.
pub everywhere :
    (m : Memory)
    → Sound m
    → (q : ℕ) → occurrences q (pool m.dead ++ lives m.live) ≡ exists_at (m.cells q)
everywhere m h q = elim (Option-cases (m.cells q)) [
  | inl absent ↦
      let gone = PlacedAt-absent none q (counts m q) (m.cells q) _ _ absent (h.places q) in
      rw absent
        (places_total m q 0 0 0 0 h (λ s. gone.1 s ∙ ground arith) (λ i. gone.2 i ∙ ground arith))
  | inr (c, found) ↦
      let place = Placed-found none q (counts m q) (m.cells q) c _ _ found (h.places q) in
      rw found (
        places_total m q _ _ _ _ h place.buckets place.ids
        ∙ one_place place.status c.size place.constructed)
]
