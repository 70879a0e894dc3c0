-- ===== src/Memory/Releasing.antt =====
-- `Release` of Reference.cpp and the counts, also where the object joins the pool.
use easygametools.Base.{
  ℕ, suc, ◌+◌, ◌-◌, ◌^◌, ◌≡◌, ◌≢◌, ◌⊎◌, inl, inr, refl, sym, ap, ◌∙◌, true, false, Option, some,
  if◌then◌else◌, ◌==◌, ==_iff, ==_refl, Bool-cases, Option-cases, arith,
}
use easygametools.Base.Table.{nat_eq, lookup, remove, lookup-remove}
use easygametools.Base.Outcome.{Ensures}
use easygametools.Memory.{Cell, Memory, put_cell, u64, add_dead_object, retire, release}
use easygametools.Base.Occurrences.{points, points-one}
use easygametools.Memory.Sound.{
  Status, live_weight, only_at-here, has_id, SoundFor, PlacedAt-same, PlacedAt-absent, Placed-found,
}
use easygametools.Memory.Tables.{
  put_cell-here, put_cell-there, bucket-add, has_id-remove, Distinct-insert, Distinct-remove,
}
use easygametools.Memory.Counting.{SameHandles, KeepsOthers, split_at, IsLive}

referenced_living :
    {n : ℕ} (j : ℕ) {s : Status} → (n ≡ 0) ⊎ (s ≡ Status.living) → n ≡ suc j → s ≡ Status.living
referenced_living j (inl none_left) h = absurd (omega arith)
referenced_living j (inr e) h = e

module _ (hole : Option (ℕ × ℕ)) (k k' : ℕ → ℕ) (p : ℕ) (c : Cell) (m : Memory)
    (found : m.cells p ≡ some c) where
  -- No other object stands under the id of `p`.
  only_other :
      (q i : ℕ)
      → (p == q) ≡ false
      → lookup c.mem_id m.live ≡ some p
      → (if c.mem_id == i then 0 else has_id q m.live i) ≡ has_id q m.live i
  only_other q i apart at = elim (Bool-cases (c.mem_id == i)) [
    | inl same ↦ rw (same, sym ((==_iff c.mem_id i).0 same), at, apart) refl
    | inr other ↦ rw other refl
  ]

  -- An object that is pointed to stands under its id.
  live_at : SoundFor hole k m → (j : ℕ) → k p ≡ suc j → lookup c.mem_id m.live ≡ some p
  live_at h j one =
      let place = Placed-found hole p (k p) (m.cells p) c _ _ found (h.places p) in
      points-one p _ (
        place.ids c.mem_id
        ∙ only_at-here c.mem_id _
        ∙ ap live_weight (referenced_living j place.referenced one))

  -- The last reference to a live object goes: the object joins the pool.
  retire-Counts :
      SoundFor hole k m
      → ((q : ℕ) → k q ≡ k' q + (if p == q then 1 else 0))
      → k' p ≡ 0
      → SoundFor hole k' (
          retire true p c
            (record m { cells = put_cell p (some (record c { ref_count = 0 })) m.cells }))
  unfolding retire add_dead_object
  retire-Counts h step gone =
      let place = Placed-found hole p (k p) (m.cells p) c _ _ found (h.places p) in
      let one : k p ≡ k' p + 1 = step p ∙ rw (==_refl p) refl in
      let status : place.status ≡ Status.living =
        referenced_living 0 place.referenced (omega (arith, one, gone)) in
      let at : lookup c.mem_id m.live ≡ some p = live_at h 0 (omega (arith, one, gone)) in
      record {
        places =
            split_at _ p
              (rw (put_cell-here p (some (record c { ref_count = 0 })) m.cells) (record {
                status = Status.pooled;
                counted = sym gone;
                buckets = λ s.
                    bucket-add p p c.size s m.dead
                    ∙ rw (==_refl p, place.buckets s, status) (ground arith);
                ids = λ i. has_id-remove p c.mem_id i m.live ∙ ground (arith, place.ids i);
                referenced = inl gone;
                constructed = place.constructed ∙ rw status refl;
              }))
              (λ q apart.
                PlacedAt-same hole q (k q) _ (m.cells q) _ _ _ _ _
                  (sym (step q ∙ rw apart (omega arith))) (put_cell-there p q _ m.cells apart)
                  (λ s. bucket-add q p c.size s m.dead ∙ rw apart (omega arith))
                  (λ i. has_id-remove q c.mem_id i m.live ∙ only_other q i apart at) (h.places q));
        fresh = λ i le. lookup-remove c.mem_id i m.live ∙ ground (arith, h.fresh i le);
        live_keys = Distinct-remove c.mem_id m.live h.live_keys;
        dead_keys = Distinct-insert c.size _ m.dead h.dead_keys;
        fits = λ q. omega (arith, step q, h.fits q);
        running = h.running;
      }

  keeps :
      SoundFor hole k m
      → ((q : ℕ) → k q ≡ k' q + (if p == q then 1 else 0))
      → (q i : ℕ) → (p == q) ≡ false
      → lookup i m.live ≡ some q
      → lookup i (remove c.mem_id m.live) ≡ some q
  keeps h step q i apart stands =
      let one : k p ≡ k' p + 1 = step p ∙ rw (==_refl p) refl in
      let at : lookup c.mem_id m.live ≡ some p = live_at h (k' p) (omega (arith, one)) in
      elim (Bool-cases (c.mem_id == i)) [
        | inl same ↦ absurd (
            ground (
              arith,
              at,
              stands,
              (==_iff c.mem_id i).0 same,
              ap (λ j. lookup j m.live) ((==_iff c.mem_id i).0 same),
            ))
        | inr other ↦ lookup-remove c.mem_id i m.live ∙ rw other stands
      ]

  -- A reference goes, and others stay.
  lower-Counts :
      SoundFor hole k m
      → ((q : ℕ) → k q ≡ k' q + (if p == q then 1 else 0))
      → k' p ≢ 0
      → SoundFor hole k'
          (record m { cells = put_cell p (some (record c { ref_count = k' p })) m.cells })
  lower-Counts h step more =
      let place = Placed-found hole p (k p) (m.cells p) c _ _ found (h.places p) in
      let one : k p ≡ k' p + 1 = step p ∙ rw (==_refl p) refl in
      record {
        places =
            split_at _ p
              (rw (put_cell-here p (some (record c { ref_count = k' p })) m.cells) (record {
                status = place.status;
                counted = refl;
                buckets = place.buckets;
                ids = place.ids;
                referenced = inr (referenced_living (k' p) place.referenced (omega (arith, one)));
                constructed = place.constructed;
              }))
              (λ q apart.
                PlacedAt-same hole q (k q) _ (m.cells q) _ _ _ _ _
                  (sym (step q ∙ rw apart (omega arith))) (put_cell-there p q _ m.cells apart)
                  (λ s. refl) (λ i. refl) (h.places q));
        fresh = h.fresh;
        live_keys = h.live_keys;
        dead_keys = h.dead_keys;
        fits = λ q. omega (arith, step q, h.fits q);
        running = h.running;
      }

  release_found-Counts :
      SoundFor hole k m
      → ((q : ℕ) → k q ≡ k' q + (if p == q then 1 else 0))
      → Ensures (release p m) (λ m'. SoundFor hole k' m' × SameHandles m m' × KeepsOthers p m m')
  unfolding release
  release_found-Counts h step =
      let place = Placed-found hole p (k p) (m.cells p) c _ _ found (h.places p) in
      let one : k p ≡ k' p + 1 = step p ∙ rw (==_refl p) refl in
      let left : u64 (c.ref_count + 2 ^ 64 - 1) ≡ k' p =
        omega (arith, one, place.counted, h.fits p) in
      rw (found, left)
        (elim (Bool-cases (k' p == 0)) [
          | inl zeroed ↦
              let gone = (==_iff (k' p) 0).0 zeroed in
              rw (zeroed, gone)
                (retire-Counts h step gone, refl, λ q i apart at. keeps h step q i apart at)
          | inr more ↦ rw more (
            lower-Counts h step (λ e. absurd (ground (arith, more, e))),
            refl,
            λ q i apart at. at,
          )
        ])

module _ (hole : Option (ℕ × ℕ)) (k k' : ℕ → ℕ) where
  pub release-SoundFor :
      (p : ℕ) (m : Memory)
      → SoundFor hole k m
      → ((q : ℕ) → k q ≡ k' q + points q (some p))
      → Ensures (release p m) (λ m'. SoundFor hole k' m' × SameHandles m m' × KeepsOthers p m m')
  release-SoundFor p m h step = elim (Option-cases (m.cells p)) [
    | inl absent ↦
        let gone = PlacedAt-absent hole p (k p) (m.cells p) _ _ absent (h.places p) in
        absurd (ground (arith, gone.0, step p, ==_refl p))
    | inr (c, found) ↦ release_found-Counts hole k k' p c m found h step
  ]

-- What is pointed to is live.
pub referenced-IsLive :
    (hole : Option (ℕ × ℕ)) (k : ℕ → ℕ) (p j : ℕ) (m : Memory)
    → SoundFor hole k m
    → k p ≡ suc j
    → IsLive p m
referenced-IsLive hole k p j m h one = elim (Option-cases (m.cells p)) [
  | inl absent ↦
      let gone = PlacedAt-absent hole p (k p) (m.cells p) _ _ absent (h.places p) in
      absurd (omega (arith, gone.0, one))
  | inr (c, found) ↦ (c.mem_id, live_at hole k k p c m found h j one)
]
