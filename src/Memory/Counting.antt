-- ===== src/Memory/Counting.antt =====
-- `AddRef` of Reference.cpp and the counts, and what the operations may leave as it was.
use easygametools.Base.{
  ℕ, ◌+◌, ◌^◌, ◌<◌, ◌≡◌, inl, inr, refl, sym, ◌∙◌, false, Option, some, if◌then◌else◌, ◌==◌, ==_iff,
  ==_refl, Bool-cases, Option-cases, arith,
}
use easygametools.Base.Table.{nat_eq, lookup}
use easygametools.Base.Outcome.{Ensures}
use easygametools.Memory.{Cell, Memory, u64, add_ref}
use easygametools.Base.Occurrences.{points}
use easygametools.Memory.Sound.{
  live_weight, live_weight-one, only_at-here, has_id, SoundFor, PlacedAt-same, PlacedAt-absent,
  Placed-found,
}
use easygametools.Memory.Tables.{put_cell-here, put_cell-there}

-- What `add_ref p` and `release p` leave as it was.
abbrev pub SameHandles : Memory → Memory → Type 0
SameHandles m m' = m'.handles ≡ m.handles

-- Every live object but `p` stays so.
abbrev pub KeepsOthers : ℕ → Memory → Memory → Type 0
KeepsOthers p m m' =
    (q i : ℕ) → (p == q) ≡ false → lookup i m.live ≡ some q → lookup i m'.live ≡ some q

-- Two statements at the address `p`, and at every other, are one at all.
pub split_at : (P : ℕ → Type 0) (p : ℕ) → P p → ((q : ℕ) → (p == q) ≡ false → P q) → (q : ℕ) → P q
split_at P p here there q = elim (Bool-cases (p == q)) [
  | inl same ↦ rw (sym ((==_iff p q).0 same)) here
  | inr apart ↦ there q apart
]

-- A live object is the one that stands under its id.
abbrev pub IsLive : ℕ → Memory → Type 0
IsLive p m = (i : ℕ) × (lookup i m.live ≡ some p)

pub live-cell :
    (hole : Option (ℕ × ℕ)) (k : ℕ → ℕ) (p : ℕ) (m : Memory)
    → SoundFor hole k m
    → IsLive p m
    → (c : Cell) × (m.cells p ≡ some c) × (has_id p m.live c.mem_id ≡ 1)
live-cell hole k p m h (i, at) =
    let one : has_id p m.live i ≡ 1 = rw at (rw (==_refl p) refl) in
    elim (Option-cases (m.cells p)) [
      | inl absent ↦
          let gone = PlacedAt-absent hole p (k p) (m.cells p) _ _ absent (h.places p) in
          absurd (ground (arith, gone.2 i))
      | inr (c, found) ↦
          let place = Placed-found hole p (k p) (m.cells p) c _ _ found (h.places p) in
          (c, found, ground (arith, place.ids i, place.ids c.mem_id))
    ]

module _ (hole : Option (ℕ × ℕ)) (k k' : ℕ → ℕ) (p : ℕ) (c : Cell) (m : Memory)
    (found : m.cells p ≡ some c) where
  -- One reference more to a live object.
  add_ref-Counts :
      SoundFor hole k m
      → ((q : ℕ) → k' q ≡ k q + (if p == q then 1 else 0))
      → k' p < 2 ^ 64
      → has_id p m.live c.mem_id ≡ 1
      → Ensures (add_ref p m) (λ m'. SoundFor hole k' m' × SameHandles m m')
  unfolding add_ref
  add_ref-Counts h step bound alive =
      let place = Placed-found hole p (k p) (m.cells p) c _ _ found (h.places p) in
      let more : k' p ≡ k p + 1 = step p ∙ rw (==_refl p) refl in
      rw found (
        record {
          places =
              split_at _ p
                (rw
                  (put_cell-here p (some (record c { ref_count = u64 (c.ref_count + 1) })) m.cells)
                  (record {
                    status = place.status;
                    counted = omega (arith, more, place.counted);
                    buckets = place.buckets;
                    ids = place.ids;
                    referenced = inr (
                        live_weight-one place.status (
                          omega (
                            arith,
                            only_at-here c.mem_id (live_weight place.status),
                            place.ids c.mem_id,
                          )));
                    constructed = place.constructed;
                  }))
                (λ q apart.
                  PlacedAt-same hole q (k q) _ (m.cells q) _ _ _ _ _
                    (step q ∙ rw apart (omega arith)) (put_cell-there p q _ m.cells apart)
                    (λ s. refl) (λ i. refl) (h.places q));
          fresh = h.fresh;
          live_keys = h.live_keys;
          dead_keys = h.dead_keys;
          fits = λ q. elim (Bool-cases (p == q)) [
            | inl same ↦ rw (sym ((==_iff p q).0 same)) bound
            | inr apart ↦ ground (arith, step q, apart, h.fits q)
          ];
          running = h.running;
        },
        refl,
      )

module _ (hole : Option (ℕ × ℕ)) (k k' : ℕ → ℕ) where
  pub add_ref-SoundFor :
      (p : ℕ) (m : Memory)
      → SoundFor hole k m
      → ((q : ℕ) → k' q ≡ k q + points q (some p))
      → k' p < 2 ^ 64
      → IsLive p m
      → Ensures (add_ref p m) (λ m'. SoundFor hole k' m' × SameHandles m m')
  add_ref-SoundFor p m h step bound live =
      let (c, found, alive) = live-cell hole k p m h live in
      add_ref-Counts hole k k' p c m found h step bound alive
