-- ===== src/Memory/Safety.antt =====
-- The reference counts of Reference.h as their clients see them.
use easygametools.Base.{
  ℕ, ◌-◌, ◌≡◌, ◌≢◌, refl, ap, false, Option, none, some, [], ◌∷◌, ◌++◌, ==_refl, arith,
}
use easygametools.Base.Table.{nat_eq, insert, entry, lookup-insert_self}
use easygametools.Base.Outcome.{ok, ◌>>=◌, Ensures, Ensures-eq}
use easygametools.Memory.{
  Cell, Memory, bucket, target, assign, release_old, release, retire, add_dead_object, add_new,
  add_ref, operator_new, reuse, destroy,
}
use easygametools.Base.Occurrences.{points_self}
use easygametools.Memory.Counts.{count-insert}
use easygametools.Memory.Sound.{Sound, counts, Placed-found}
use easygametools.Memory.Counting.{IsLive, live-cell}
use easygametools.Memory.Releasing.{referenced-IsLive}
use easygametools.Memory.Handles.{CanAssign, assign-SoundBut, assign-running}
use easygametools.Memory.Collector.{collect_remaining}
use easygametools.Memory.Collection.{collect_remaining-Sound}
use easygametools.Memory.Reachable.{Reachable, reaches-Sound, new_memory-Sound}

-- In every memory that creations whose constructor does not throw, ends of handles, and assignments of
-- null or of a live object that does not lose its last handle by it lead to, with fewer than 2^64 objects
-- ever made and fewer than 2^64 handles on each, a handle that points somewhere points to an object that is
-- there and live, and the count of that object is the number of the handles that point to it.
pub Reachable-target :
    (m : Memory) (v p : ℕ)
    → Reachable m
    → target v m ≡ some p
    → (c : Cell) × (m.cells p ≡ some c) × (c.ref_count ≡ counts m p) × IsLive p m
Reachable-target m v p way at =
    let h = reaches-Sound way new_memory-Sound in
    let live : IsLive p m =
      referenced-IsLive none (counts m) p (counts m p - 1) m h
        (omega (arith, points_self p (target v m) at, count-insert p v none m.handles)) in
    let (c, found, one) = live-cell none (counts m) p m h live in
    let place = Placed-found none p (counts m p) (m.cells p) c _ _ found (h.places p) in
    (c, found, place.counted, live)

-- An assignment of null, or of a live object that does not lose its last handle by it, succeeds; the
-- handle then points to it, the other handles are as before, and all counts are right.
pub assign-target :
    (v : ℕ) (o : Option ℕ) (m : Memory)
    → Sound m
    → CanAssign v o m
    → (m' : Memory) × (assign v o m ≡ ok m')
      × Sound m'
      × (m'.handles ≡ insert v o m.handles)
      × (target v m' ≡ o)
assign-target v o m h can =
    let (m', done, (good, handles)) =
      Ensures-eq (assign v o m) _ (assign-SoundBut none v o m h can) in
    (m', done, good, handles, rw handles (ap entry (lookup-insert_self v o m.handles)))

-- At the end of the program every object is deleted, none twice, from each memory that creations whose
-- constructor does not throw, ends of handles, and assignments of null or of a live object that does not
-- lose its last handle by it lead to, with fewer than 2^64 objects ever made and fewer than 2^64 handles on
-- each, if at least one object has been made.
pub Reachable-collect_remaining :
    (m : Memory)
    → Reachable m
    → m.mem_objects_total ≢ 0
    → Ensures (collect_remaining m) (λ (stats, m'). ((q : ℕ) → m'.cells q ≡ none) × (m'.live ≡ []))
Reachable-collect_remaining m way made =
    collect_remaining-Sound m (reaches-Sound way new_memory-Sound) made

-- A handle that alone points to an object without members is assigned its own value. It still points to
-- the object, yet the next `new` of that size is given the memory of the object, if the pool had none.
pub self_assign-operator_new :
    (v p fresh : ℕ) (c : Cell) (m : Memory)
    → m.is_closing ≡ false
    → target v m ≡ some p
    → m.cells p ≡ some c
    → c.ref_count ≡ 1
    → c.members ≡ []
    → bucket c.size m.dead ≡ []
    → Ensures
        (assign v (some p) m >>= operator_new fresh c.size)
        (λ (q, m'). (q ≡ p) × (target v m' ≡ some p))
unfolding release_old release retire add_dead_object add_new add_ref operator_new reuse destroy
self_assign-operator_new v p fresh c m running at found single no_members no_pool =
    rw (assign-running v (some p) m running, at, found, single, ==_refl p)
      (rw
        (
          lookup-insert_self c.size (bucket c.size m.dead ++ p ∷ []) m.dead,
          no_pool,
          ==_refl p,
          no_members,
        )
        (refl, ap entry (lookup-insert_self v (some p) m.handles)))
