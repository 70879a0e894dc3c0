-- ===== src/Memory/Creation.antt =====
-- The constructor of `Reference` (Reference.cpp), and `new` as a whole, on a sound memory.
use easygametools.Base.{
  ℕ, ◌+◌, ◌^◌, ◌<◌, ◌≡◌, ◌⊎◌, refl, sym, ◌∙◌, false, none, some, List, [], ◌∷◌, ◌==◌, if◌then◌else◌,
  inl, inr, ==_iff, ==_refl, Bool-cases, Option-cases, arith,
}
use easygametools.Base.Table.{Table, nat_eq, lookup, lookup-insert, lookup-insert_self}
use easygametools.Base.Outcome.{Ensures, Ensures-bind}
use easygametools.Memory.{Cell, Memory, bucket, operator_new, construct, create}
use easygametools.Base.Occurrences.{points}
use easygametools.Memory.Sound.{
  Status, own_size, only_at, has_id, SoundBut, Sound, counts, PlacedAt-same, PlacedAt-absent,
  PlacedAt-between, Placed-found,
}
use easygametools.Memory.Tables.{put_cell-here, put_cell-there, has_id-insert, Distinct-insert}
use easygametools.Memory.Counting.{split_at}
use easygametools.Memory.Allocation.{Source, operator_new-SoundBut}

between_only :
    (status : Status) (z size n : ℕ)
    → some size ≡ own_size status z
    → (n ≡ 0) ⊎ (status ≡ Status.living)
    → (status ≡ Status.between) × (z ≡ size) × (n ≡ 0)
between_only Status.living z size n h r = absurd cc
between_only Status.pooled z size n h r = absurd cc
between_only Status.between z size n h (inl r) = (refl, cc, r)
between_only Status.between z size n h (inr r) = absurd cc

new_id :
    (p master id i l : ℕ)
    → l ≡ only_at id 0 i
    → (if master == i then points p (some p) else l) ≡ only_at master 1 i
new_id p master id i l h = ground (arith, ==_refl p)

other_id :
    (q p master i : ℕ) (t : Table ℕ ℕ)
    → (p == q) ≡ false
    → lookup master t ≡ none
    → (if master == i then points q (some p) else has_id q t i) ≡ has_id q t i
other_id q p master i t apart free = elim (Bool-cases (master == i)) [
  | inl same ↦
      let here : lookup i t ≡ none = rw (sym ((==_iff master i).0 same)) free in
      rw (same, here, apart) refl
  | inr other ↦ rw other refl
]

-- What the constructor of an object makes: a live object, to which nothing points.
pub record IsNew (p size : ℕ) (members : List ℕ) (m : Memory) : Type 0 where
  pub cell : Cell
  pub there : m.cells p ≡ some cell
  pub sized : cell.size ≡ size
  pub held : cell.members ≡ members
  pub stands : lookup cell.mem_id m.live ≡ some p
  pub unused : counts m p ≡ 0

construct_found-Sound :
    (p size : ℕ) (members : List ℕ) (c : Cell) (m : Memory)
    → SoundBut (some (p, size)) m
    → m.mem_id_master + 1 < 2 ^ 64
    → m.cells p ≡ some c
    → Ensures (construct p members m) (λ m'. Sound m' × IsNew p size members m')
unfolding construct
construct_found-Sound p size members c m h bound found =
    let place = Placed-found (some (p, size)) p (counts m p) (m.cells p) c _ _ found (h.places p) in
    let new : Cell = record c { ref_count = 0; mem_id = m.mem_id_master; members = members } in
    let (between, fit, none_left) =
      between_only place.status c.size size (counts m p) (rw (==_refl p) at place.constructed)
        place.referenced in
    rw found (
      record {
        places =
            split_at _ p
              (rw (put_cell-here p (some new) m.cells) (record {
                status = Status.living;
                counted = sym none_left;
                buckets = λ s. place.buckets s ∙ rw between refl;
                ids = λ i.
                    has_id-insert p p m.mem_id_master i m.live
                    ∙ new_id p m.mem_id_master c.mem_id i _ (rw between at (place.ids i));
                referenced = inl none_left;
                constructed = refl;
              }))
              (λ q apart. PlacedAt-between (some (p, size)) none q _ _ _ _ (rw apart refl) (
                PlacedAt-same (some (p, size)) q _ _ (m.cells q) _ _ _ _ _ refl
                  (put_cell-there p q (some new) m.cells apart) (λ s. refl)
                  (λ i.
                    has_id-insert q p m.mem_id_master i m.live
                    ∙ other_id q p m.mem_id_master i m.live apart
                        (h.fresh m.mem_id_master (omega arith)))
                  (h.places q)));
        fresh = λ i le. lookup-insert m.mem_id_master i p m.live ∙ ground (arith, h.fresh i);
        live_keys = Distinct-insert m.mem_id_master p m.live h.live_keys;
        dead_keys = h.dead_keys;
        fits = h.fits;
        running = h.running;
      },
      record {
        cell = new;
        there = put_cell-here p (some new) m.cells;
        sized = fit;
        held = refl;
        stands = lookup-insert_self m.mem_id_master p m.live;
        unused = none_left;
      },
    )

pub construct-Sound :
    (p size : ℕ) (members : List ℕ) (m : Memory)
    → SoundBut (some (p, size)) m
    → m.mem_id_master + 1 < 2 ^ 64
    → Ensures (construct p members m) (λ m'. Sound m' × IsNew p size members m')
construct-Sound p size members m h bound = elim (Option-cases (m.cells p)) [
  | inl absent ↦
      let gone =
        PlacedAt-absent (some (p, size)) p (counts m p) (m.cells p) _ _ absent (h.places p) in
      let there : some size ≡ none = rw (==_refl p) at gone.3 in absurd cc
  | inr (c, found) ↦ construct_found-Sound p size members c m h bound found
]

Source-master :
    (fresh size : ℕ) (ps : List ℕ) (m : Memory) (p : ℕ) (m' : Memory)
    → Source fresh size ps m (p, m')
    → m'.mem_id_master ≡ m.mem_id_master
Source-master fresh size [] m p m' h = h.1
Source-master fresh size (q ∷ rest) m p m' h = h.1

-- `new T(…)` gives a live object of the size, with no handle yet.
pub create-Sound :
    (fresh size : ℕ) (members : List ℕ) (m : Memory)
    → Sound m
    → m.cells fresh ≡ none
    → m.mem_id_master + 1 < 2 ^ 64
    → Ensures (create fresh size members m) (λ (p, m'). Sound m' × IsNew p size members m')
unfolding create
create-Sound fresh size members m h unused bound =
    Ensures-bind (operator_new fresh size m) _ _ _ (operator_new-SoundBut fresh size m h unused)
      (λ (p, m') (good, from).
        Ensures-bind (construct p members m') _ _ _
          (construct-Sound p size members m' good
            (rw (Source-master fresh size (bucket size m.dead) m p m' from) bound))
          (λ m'' end. end))
