-- ===== src/Memory/Sound.antt =====
-- The sound memories of Reference.h: where each object stands, and what its count is.
use easygametools.Base.{
  ℕ, ◌<◌, ◌≤◌, ◌≡◌, ◌⊎◌, refl, sym, ◌∙◌, false, Option, none, some, List, [], ◌∷◌, ◌^◌,
  if◌then◌else◌, ◌==◌, ==_refl, arith,
}
use easygametools.Base.Table.{Table, nat_eq, lookup}
use easygametools.Memory.{Cell, Memory, bucket}
use easygametools.Base.Occurrences.{points, occurrences}
use easygametools.Memory.Counts.{count}

-- An object is live, in the pool of the dead, or in between: taken from the pool, not yet constructed.
pub data Status : Type 0 where
  living pooled between : Status

abbrev pub live_weight : Status → ℕ
live_weight Status.living = 1
live_weight _ = 0

abbrev pub pool_weight : Status → ℕ
pool_weight Status.pooled = 1
pool_weight _ = 0

pub live_weight-one : (s : Status) → live_weight s ≡ 1 → s ≡ Status.living
live_weight-one Status.living h = refl
live_weight-one Status.pooled h = absurd (omega arith)
live_weight-one Status.between h = absurd (omega arith)

-- `n` at the key, and 0 elsewhere.
abbrev pub only_at : ℕ → ℕ → ℕ → ℕ
only_at key n j = if key == j then n else 0

pub only_at-here : (key n : ℕ) → only_at key n key ≡ n
only_at-here key n = rw (==_refl key) refl

-- How often the address `q` stands in a bucket, and whether an id is that of `q`.
abbrev pub in_bucket : ℕ → Table ℕ (List ℕ) → ℕ → ℕ
in_bucket q d s = occurrences q (bucket s d)

abbrev pub has_id : ℕ → Table ℕ ℕ → ℕ → ℕ
has_id q t i = points q (lookup i t)

-- The object that is in between: its address and its size.
abbrev pub size_between : ℕ → Option (ℕ × ℕ) → Option ℕ
size_between q none = none
size_between q (some (p, size)) = if p == q then some size else none

abbrev pub own_size : Status → ℕ → Option ℕ
own_size Status.between size = some size
own_size _ size = none

-- The object at `q`, to which `n` handles point: its count, its place, and that only a live object is
-- pointed to. `between_at` is the one object that is in between.
pub record Placed (between_at : Option (ℕ × ℕ)) (q n : ℕ) (c : Cell) (b l : ℕ → ℕ) : Type 0 where
  pub status : Status
  pub counted : c.ref_count ≡ n
  pub buckets : (s : ℕ) → b s ≡ only_at c.size (pool_weight status) s
  pub ids : (i : ℕ) → l i ≡ only_at c.mem_id (live_weight status) i
  pub referenced : (n ≡ 0) ⊎ (status ≡ Status.living)
  pub constructed : size_between q between_at ≡ own_size status c.size

-- An address that has no object: nothing points to it, and no table has it.
abbrev pub PlacedAt : Option (ℕ × ℕ) → ℕ → ℕ → Option Cell → (ℕ → ℕ) → (ℕ → ℕ) → Type 0
PlacedAt hole q n none b l =
    (n ≡ 0) × ((s : ℕ) → b s ≡ 0) × ((i : ℕ) → l i ≡ 0) × (size_between q hole ≡ none)
PlacedAt hole q n (some c) b l = Placed hole q n c b l

-- No key twice.
abbrev pub Distinct {ℓ} : {V : Type ℓ} → Table ℕ V → Type ℓ
Distinct [] = Unit
Distinct ((k, v) ∷ t) = (lookup k t ≡ none) × Distinct t

-- The memory where `k q` handles are to point to each address `q`.
pub record SoundFor (between_at : Option (ℕ × ℕ)) (k : ℕ → ℕ) (m : Memory) : Type 0 where
  pub places :
      (q : ℕ) → PlacedAt between_at q (k q) (m.cells q) (in_bucket q m.dead) (has_id q m.live)
  pub fresh : (i : ℕ) → m.mem_id_master ≤ i → lookup i m.live ≡ none
  pub live_keys : Distinct m.live
  pub dead_keys : Distinct m.dead
  pub fits : (q : ℕ) → k q < 2 ^ 64
  pub running : m.is_closing ≡ false

abbrev pub counts : Memory → ℕ → ℕ
counts m q = count q m.handles

abbrev pub SoundBut : Option (ℕ × ℕ) → Memory → Type 0
SoundBut between_at m = SoundFor between_at (counts m) m

abbrev pub Sound : Memory → Type 0
Sound m = SoundBut none m

pub PlacedAt-same :
    (hole : Option (ℕ × ℕ)) (q n n' : ℕ) (o o' : Option Cell) (b b' l l' : ℕ → ℕ)
    → n' ≡ n
    → o' ≡ o
    → ((s : ℕ) → b' s ≡ b s)
    → ((i : ℕ) → l' i ≡ l i)
    → PlacedAt hole q n o b l
    → PlacedAt hole q n' o' b' l'
PlacedAt-same hole q n n' none o' b b' l l' hn ho hb hl (h0, h1, h2, h3) =
    rw ho (hn ∙ h0, (λ s. hb s ∙ h1 s), (λ i. hl i ∙ h2 i), h3)
PlacedAt-same hole q n n' (some c) o' b b' l l' hn ho hb hl h =
    rw (ho, hn)
      (record {
        status = h.status;
        counted = h.counted;
        buckets = λ s. hb s ∙ h.buckets s;
        ids = λ i. hl i ∙ h.ids i;
        referenced = h.referenced;
        constructed = h.constructed;
      })

pub PlacedAt-between :
    (hole hole' : Option (ℕ × ℕ)) (q n : ℕ) (o : Option Cell) (b l : ℕ → ℕ)
    → size_between q hole' ≡ size_between q hole
    → PlacedAt hole q n o b l
    → PlacedAt hole' q n o b l
PlacedAt-between hole hole' q n none b l e (h0, h1, h2, h3) = (h0, h1, h2, e ∙ h3)
PlacedAt-between hole hole' q n (some c) b l e h = record {
  status = h.status;
  counted = h.counted;
  buckets = h.buckets;
  ids = h.ids;
  referenced = h.referenced;
  constructed = e ∙ h.constructed;
}

-- An address that has no object.
pub PlacedAt-absent :
    (hole : Option (ℕ × ℕ)) (q n : ℕ) (o : Option Cell) (b l : ℕ → ℕ)
    → o ≡ none
    → PlacedAt hole q n o b l
    → PlacedAt hole q n none b l
PlacedAt-absent hole q n o b l e h =
    PlacedAt-same hole q n n o none b b l l refl (sym e) (λ s. refl) (λ i. refl) h

-- The place of an object that is there.
pub Placed-found :
    (hole : Option (ℕ × ℕ)) (q n : ℕ) (o : Option Cell) (c : Cell) (b l : ℕ → ℕ)
    → o ≡ some c
    → PlacedAt hole q n o b l
    → Placed hole q n c b l
Placed-found hole q n o c b l e h =
    PlacedAt-same hole q n n o (some c) b b l l refl (sym e) (λ s. refl) (λ i. refl) h

-- The count may be written otherwise, and the handles may change under it.
pub SoundFor-counts :
    (hole : Option (ℕ × ℕ)) (k k' : ℕ → ℕ) (m : Memory) (hs : Table ℕ (Option ℕ))
    → SoundFor hole k m
    → ((q : ℕ) → k' q ≡ k q)
    → SoundFor hole k' (record m { handles = hs })
SoundFor-counts hole k k' m hs h same = record {
  places = λ q.
      PlacedAt-same hole q (k q) _ (m.cells q) _ _ _ _ _ (same q) refl (λ s. refl) (λ i. refl)
        (h.places q);
  fresh = h.fresh;
  live_keys = h.live_keys;
  dead_keys = h.dead_keys;
  fits = λ q. omega (arith, same q, h.fits q);
  running = h.running;
}

-- A counter of the program says nothing about the objects.
pub SoundFor-used :
    (hole : Option (ℕ × ℕ)) (k : ℕ → ℕ) (m : Memory) (used : ℕ)
    → SoundFor hole k m
    → SoundFor hole k (record m { total_used = used })
SoundFor-used hole k m used h = record {
  places = h.places;
  fresh = h.fresh;
  live_keys = h.live_keys;
  dead_keys = h.dead_keys;
  fits = h.fits;
  running = h.running;
}
