-- ===== src/Memory/Allocation.antt =====
-- `operator new` of Reference.cpp on a sound memory: the cases of the pool and of `malloc`.
use easygametools.Base.{
  ℕ, ◌+◌, ◌≡◌, ◌⊎◌, refl, sym, ◌∙◌, none, some, List, [], ◌∷◌, ◌==◌, inl, inr, ==_iff, ==_refl,
  Bool-cases, Option-cases, arith,
}
use easygametools.Base.Table.{Table, nat_eq, insert, lookup-insert}
use easygametools.Base.Outcome.{
  or_error, dangling, Ensures, Ensures-bind, Ensures-weaken, Ensures-IfOk, IfOk, IfOk-all,
  IfOk-bind,
}
use easygametools.Memory.{Cell, Memory, bucket, u64, destroy, reuse, operator_new}
use easygametools.Base.Occurrences.{occurrences}
use easygametools.Memory.Sound.{
  Status, pool_weight, only_at, in_bucket, SoundFor-used, SoundBut, Sound, counts, PlacedAt-same,
  PlacedAt-absent, PlacedAt-between, Placed-found,
}
use easygametools.Memory.Tables.{put_cell-here, put_cell-there, bucket-take, Distinct-insert}
use easygametools.Memory.Counting.{split_at}
use easygametools.Memory.Handles.{destroy-SoundBut}
use easygametools.Memory.Totals.{destroy-KeepsTotals}

-- The bucket of the size, empty, is put into the table.
emptied :
    (q size s : ℕ) (d : Table ℕ (List ℕ))
    → bucket size d ≡ []
    → in_bucket q (insert size [] d) s ≡ in_bucket q d s
emptied q size s d empty = elim (Bool-cases (size == s)) [
  | inl same ↦
      let here : bucket s d ≡ [] = rw (sym ((==_iff size s).0 same)) empty in
      rw (lookup-insert size s [] d, same, here) refl
  | inr apart ↦ rw (lookup-insert size s [] d, apart) refl
]

first_pooled :
    (status : Status) (z size r : ℕ)
    → 1 + r ≡ only_at z (pool_weight status) size
    → (status ≡ Status.pooled) × (z ≡ size) × (r ≡ 0)
first_pooled Status.living z size r h = absurd (ground arith)
first_pooled Status.between z size r h = absurd (ground arith)
first_pooled Status.pooled z size r h = (refl, ground arith, ground arith)

taken_from :
    (x y z size s : ℕ) → z ≡ size → x + only_at size 1 s ≡ y → y ≡ only_at z 1 s → x ≡ only_at z 0 s
taken_from x y z size s fit = rw fit (ground arith)

unreferenced : {n : ℕ} {s : Status} → (n ≡ 0) ⊎ (s ≡ Status.living) → s ≡ Status.pooled → n ≡ 0
unreferenced (inl h) e = h
unreferenced (inr h) e = absurd cc

-- Where the pool has no object of the size.
allocate-SoundBut :
    (fresh size : ℕ) (m : Memory)
    → Sound m
    → m.cells fresh ≡ none
    → bucket size m.dead ≡ []
    → Ensures (reuse fresh size [] m) (λ (p, m'). SoundBut (some (p, size)) m')
unfolding reuse
allocate-SoundBut fresh size m h unused empty =
    let gone =
      PlacedAt-absent none fresh (counts m fresh) (m.cells fresh) _ _ unused (h.places fresh) in
    let bare : Cell = record { size = size; ref_count = 0; mem_id = 0; members = [] } in
    record {
      places =
          split_at _ fresh
            (rw (put_cell-here fresh (some bare) m.cells) (record {
              status = Status.between;
              counted = sym gone.0;
              buckets = λ s. emptied fresh size s m.dead empty ∙ gone.1 s ∙ ground arith;
              ids = λ i. gone.2 i ∙ ground arith;
              referenced = inl gone.0;
              constructed = rw (==_refl fresh) refl;
            }))
            (λ q apart. PlacedAt-between none (some (fresh, size)) q _ _ _ _ (rw apart refl) (
              PlacedAt-same none q _ _ (m.cells q) _ _ _ _ _ refl
                (put_cell-there fresh q (some bare) m.cells apart)
                (λ s. emptied q size s m.dead empty) (λ i. refl) (h.places q)));
      fresh = h.fresh;
      live_keys = h.live_keys;
      dead_keys = Distinct-insert size [] m.dead h.dead_keys;
      fits = h.fits;
      running = h.running;
    }

-- Where it has one.
pooled-SoundBut :
    (p size : ℕ) (rest : List ℕ) (m : Memory) (c : Cell)
    → Sound m
    → bucket size m.dead ≡ p ∷ rest
    → m.cells p ≡ some c
    → SoundBut (some (p, size)) (record m { dead = insert size rest m.dead })
pooled-SoundBut p size rest m c h first found =
    let place = Placed-found none p (counts m p) (m.cells p) c _ _ found (h.places p) in
    let at_size : 1 + occurrences p rest ≡ only_at c.size (pool_weight place.status) size =
      rw (first, ==_refl p) at (place.buckets size) in
    let (pooled, fit, once) = first_pooled place.status c.size size (occurrences p rest) at_size in
    let taken : (s : ℕ) → in_bucket p (insert size rest m.dead) s ≡ only_at c.size 0 s = λ s.
      taken_from _ _ c.size size s fit
        (rw (==_refl p) at (bucket-take p p size s rest m.dead first))
        (rw pooled at (place.buckets s)) in
    record {
      places =
          split_at _ p
            (PlacedAt-same (some (p, size)) p _ _ (some c) _ (in_bucket p (insert size rest m.dead))
              _ _ _ refl found (λ s. refl) (λ i. refl)
              (record {
                status = Status.between;
                counted = place.counted;
                buckets = λ s. taken s;
                ids = λ i. place.ids i ∙ rw pooled refl;
                referenced = inl (unreferenced place.referenced pooled);
                constructed = rw (==_refl p, fit) refl;
              }))
            (λ q apart.
              PlacedAt-between none (some (p, size)) q _ _ (in_bucket q (insert size rest m.dead)) _
                (rw apart refl)
                (PlacedAt-same none q _ _ (m.cells q) _ _ _ _ _ refl refl
                  (λ s.
                    sym (sym (bucket-take q p size s rest m.dead first) ∙ rw apart (omega arith)))
                  (λ i. refl) (h.places q)));
      fresh = h.fresh;
      live_keys = h.live_keys;
      dead_keys = Distinct-insert size rest m.dead h.dead_keys;
      fits = h.fits;
      running = h.running;
    }

reuse-SoundBut :
    (fresh size : ℕ) (ps : List ℕ) (m : Memory)
    → Sound m
    → m.cells fresh ≡ none
    → bucket size m.dead ≡ ps
    → Ensures (reuse fresh size ps m) (λ (p, m'). SoundBut (some (p, size)) m')
unfolding reuse
reuse-SoundBut fresh size [] m h unused empty = allocate-SoundBut fresh size m h unused empty
reuse-SoundBut fresh size (p ∷ rest) m h unused first = elim (Option-cases (m.cells p)) [
  | inl absent ↦
      let gone = PlacedAt-absent none p (counts m p) (m.cells p) _ _ absent (h.places p) in
      absurd (ground (arith, rw (first, ==_refl p) at (gone.1 size)))
  | inr (c, found) ↦ rw found (
      Ensures-bind (destroy c.members (record m { dead = insert size rest m.dead })) _ _ _
        (destroy-SoundBut _ c.members _ (pooled-SoundBut p size rest m c h first found))
        (λ m' good. good))
]

-- The ids given and the bytes allocated, where the memory comes from the pool and where it does not.
abbrev pub Source : ℕ → ℕ → List ℕ → Memory → ℕ × Memory → Type 0
Source fresh size [] m (p, m') =
    (p ≡ fresh)
    × (m'.mem_id_master ≡ m.mem_id_master)
    × (m'.total_allocated ≡ u64 (m.total_allocated + size))
Source fresh size (first ∷ rest) m (p, m') =
    (p ≡ first) × (m'.mem_id_master ≡ m.mem_id_master) × (m'.total_allocated ≡ m.total_allocated)

reuse-Source :
    (fresh size : ℕ) (ps : List ℕ) (m : Memory)
    → IfOk (reuse fresh size ps m) (Source fresh size ps m)
unfolding reuse
reuse-Source fresh size [] m = (refl, refl, refl)
reuse-Source fresh size (p ∷ rest) m =
    IfOk-bind (or_error (m.cells p) dangling) _ (λ c. Unit) _
      (IfOk-all (or_error (m.cells p) dangling) (λ c. Unit) (λ c. tt))
      (λ c found.
        IfOk-bind (destroy c.members (record m { dead = insert size rest m.dead })) _ _ _
          (destroy-KeepsTotals c.members (record m { dead = insert size rest m.dead }))
          (λ m' kept. (refl, kept.0, kept.2)))

Source-used :
    (fresh size used : ℕ) (ps : List ℕ) (m : Memory) (r : ℕ × Memory)
    → Source fresh size ps (record m { total_used = used }) r
    → Source fresh size ps m r
Source-used fresh size used [] m r h = h
Source-used fresh size used (p ∷ rest) m r h = h

-- From a sound memory, with an address that is not in use for `malloc`, `operator new` succeeds. What it
-- gives is an object of the asked size that is in no list and has no handle, and all counts stay right.
-- It is the first dead object of that size, with nothing more allocated; only if the pool has none it is
-- the new address, with the size more allocated.
pub operator_new-SoundBut :
    (fresh size : ℕ) (m : Memory)
    → Sound m
    → m.cells fresh ≡ none
    → Ensures
        (operator_new fresh size m)
        (λ (p, m'). SoundBut (some (p, size)) m' × Source fresh size (bucket size m.dead) m (p, m'))
unfolding operator_new
operator_new-SoundBut fresh size m h unused =
    let used = record m { total_used = u64 (m.total_used + size) } in
    Ensures-weaken (reuse fresh size (bucket size m.dead) used)
      (λ r. SoundBut (some (r.0, size)) r.1 × Source fresh size (bucket size m.dead) used r) _
      (Ensures-IfOk (reuse fresh size (bucket size m.dead) used) _ _
        (reuse-SoundBut fresh size (bucket size m.dead) used (SoundFor-used none (counts m) m _ h)
          unused refl)
        (reuse-Source fresh size (bucket size m.dead) used))
      (λ (p, m') (good, from).
        (good, Source-used fresh size used.total_used (bucket size m.dead) m (p, m') from))
