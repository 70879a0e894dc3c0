-- ===== src/Memory/Handles.antt =====
-- The smart pointer `Object<T>` of Reference.h on a sound memory: the assignments and the destructor,
-- also those of the members of an object.
use easygametools.Base.{
  ℕ, ◌+◌, ◌-◌, ◌^◌, ◌<◌, ◌≤◌, ◌≡◌, refl, sym, ap, false, Option, none, some, List, [], ◌∷◌, ◌==◌,
  inl, inr, if_false, arith,
}
use easygametools.Base.Table.{nat_eq, lookup, insert, entry, lookup-insert_self}
use easygametools.Base.Outcome.{ok, Ensures, Ensures-bind, Ensures-weaken, ◌>>=◌}
use easygametools.Memory.{Memory, release, release_old, add_new, target, assign, drop, destroy}
use easygametools.Base.Occurrences.{points, points_self, points-cases}
use easygametools.Memory.Counts.{count, count-insert}
use easygametools.Memory.Sound.{SoundFor, SoundBut, counts, SoundFor-counts}
use easygametools.Memory.Counting.{SameHandles, IsLive, add_ref-SoundFor}
use easygametools.Memory.Releasing.{referenced-IsLive, release-SoundFor}

-- What may be assigned to the handle `v`: a live object that is not about to lose its last handle by
-- this very assignment.
abbrev pub CanAssign : ℕ → Option ℕ → Memory → Type 0
CanAssign v o m =
    (p : ℕ)
    → o ≡ some p
    → IsLive p m × (counts m p + 1 < 2 ^ 64) × (target v m ≡ some p → 2 ≤ counts m p)

pub live-CanAssign :
    (v p : ℕ) (m : Memory)
    → IsLive p m
    → counts m p + 1 < 2 ^ 64
    → (target v m ≡ some p → 2 ≤ counts m p)
    → CanAssign v (some p) m
live-CanAssign v p m live bound other q e =
    let same : p ≡ q = cc in rw (sym same) (live, bound, other)

drop-running :
    (v : ℕ) (m : Memory)
    → m.is_closing ≡ false
    → drop v m
      ≡ (release_old (target v m) m >>= λ m'. ok (record m' { handles = insert v none m'.handles }))
unfolding drop
drop-running v m h = if_false _ m.is_closing h

pub assign-running :
    (v : ℕ) (o : Option ℕ) (m : Memory)
    → m.is_closing ≡ false
    → assign v o m ≡ (
        release_old (target v m) m >>= λ m'.
        add_new o (record m' { handles = insert v o m'.handles }))
unfolding assign
assign-running v o m h = if_false _ m.is_closing h

points-zero : (p q : ℕ) → points q (some p) ≡ 0 → (p == q) ≡ false
points-zero p q h = ground arith

module _ (hole : Option (ℕ × ℕ)) where
  release_old-SoundFor :
      (k k' : ℕ → ℕ) (o : Option ℕ) (m : Memory)
      → SoundFor hole k m
      → ((q : ℕ) → k q ≡ k' q + points q o)
      → Ensures (release_old o m) (λ m'.
        SoundFor hole k' m'
        × SameHandles m m'
        × ((q i : ℕ) → points q o ≡ 0 → lookup i m.live ≡ some q → lookup i m'.live ≡ some q))
  unfolding release_old
  release_old-SoundFor k k' none m h step = (
    SoundFor-counts hole k k' m m.handles h (λ q. omega (arith, step q)),
    refl,
    λ q i none_there at. at,
  )
  release_old-SoundFor k k' (some p) m h step =
      Ensures-weaken (release p m) _ _ (release-SoundFor hole k k' p m h step)
        (λ m' (h1, same, keeps). (h1, same, λ q i zeroed at. keeps q i (points-zero p q zeroed) at))

  add_new-SoundFor :
      (k k' : ℕ → ℕ) (o : Option ℕ) (m : Memory)
      → SoundFor hole k m
      → ((q : ℕ) → k' q ≡ k q + points q o)
      → ((p : ℕ) → o ≡ some p → (k' p < 2 ^ 64) × IsLive p m)
      → Ensures (add_new o m) (λ m'. SoundFor hole k' m' × SameHandles m m')
  unfolding add_new
  add_new-SoundFor k k' none m h step can =
      (SoundFor-counts hole k k' m m.handles h (λ q. omega (arith, step q)), refl)
  add_new-SoundFor k k' (some p) m h step can =
      add_ref-SoundFor hole k k' p m h step (can p refl).0 (can p refl).1

  -- The destructor of a handle.
  pub drop-SoundBut :
      (v : ℕ) (m : Memory)
      → SoundBut hole m
      → Ensures (drop v m) (λ m'. SoundBut hole m' × (target v m' ≡ none))
  drop-SoundBut v m h = rw (drop-running v m h.running) (
      Ensures-bind (release_old (target v m) m) _ _ _
        (release_old-SoundFor (counts m) (λ q. count q (insert v none m.handles)) (target v m) m h
          (λ q. omega (arith, count-insert q v none m.handles)))
        (λ m' (h1, same, keeps). (
          SoundFor-counts hole _ _ m' _ h1 (λ q. rw same refl),
          ap entry (lookup-insert_self v none m'.handles),
        )))

  -- What is assigned is still live when the old reference is gone.
  still-IsLive :
      (v p : ℕ) (m m' : Memory)
      → SoundFor hole (λ q. count q (insert v none m.handles)) m'
      → IsLive p m
      → (target v m ≡ some p → 2 ≤ counts m p)
      → ((q i : ℕ)
          → points q (target v m) ≡ 0
          → lookup i m.live ≡ some q
          → lookup i m'.live ≡ some q)
      → IsLive p m'
  still-IsLive v p m m' h (i, at) other keeps = elim (points-cases p (target v m)) [
    | inl apart ↦ (i, keeps p i apart at)
    | inr mine ↦ referenced-IsLive hole _ p (count p (insert v none m.handles) - 1) m' h (
        omega (arith, other mine, points_self p (target v m) mine, count-insert p v none m.handles))
  ]

  -- The two assignments.
  pub assign-SoundBut :
      (v : ℕ) (o : Option ℕ) (m : Memory)
      → SoundBut hole m
      → CanAssign v o m
      → Ensures (assign v o m) (λ m'. SoundBut hole m' × (m'.handles ≡ insert v o m.handles))
  assign-SoundBut v o m h can = rw (assign-running v o m h.running) (
      Ensures-bind (release_old (target v m) m) _ _ _
        (release_old-SoundFor (counts m) (λ q. count q (insert v none m.handles)) (target v m) m h
          (λ q. omega (arith, count-insert q v none m.handles)))
        (λ m' (h1, same, keeps).
          Ensures-weaken (add_new o (record m' { handles = insert v o m'.handles })) _ _
            (add_new-SoundFor (λ q. count q (insert v none m.handles))
              (λ q. count q (insert v o m.handles)) o
              (record m' { handles = insert v o m'.handles })
              (SoundFor-counts hole _ _ m' _ h1 (λ q. refl))
              (λ q. omega (arith, count-insert q v none m.handles, count-insert q v o m.handles))
              (λ p e. (
                omega (arith, (can p e).1, count-insert p v o m.handles, points_self p o e),
                still-IsLive v p m m' h1 (can p e).0 (can p e).2 keeps,
              )))
            (λ m'' (h2, same2). (
              SoundFor-counts hole _ _ m'' m''.handles h2 (λ q. rw (same2, same) refl),
              rw (same2, same) refl,
            ))))

  pub destroy-SoundBut :
      (vs : List ℕ) (m : Memory) → SoundBut hole m → Ensures (destroy vs m) (λ m'. SoundBut hole m')
  unfolding destroy
  destroy-SoundBut [] m h = h
  destroy-SoundBut (v ∷ vs) m h =
      Ensures-bind (drop v m) (destroy vs) _ _ (drop-SoundBut v m h)
        (λ m' good. destroy-SoundBut vs m' good.0)
