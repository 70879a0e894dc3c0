-- ===== src/Memory/Examples.antt =====
-- Tests of the model of Reference.h: an object of 16 bytes that holds another of 8.
use easygametools.Base.{ℕ, ◌≡◌, refl, none, some, [], ◌∷◌, arith}
use easygametools.Base.Table.{nat_eq, lookup, insert, remove}
use easygametools.Base.Outcome.{Result, ok, err, division_by_zero, ◌>>=◌, Ensures}
use easygametools.Memory.{
  Cell, Memory, new_memory, target, assign, drop, create, operator_new, reuse, construct, destroy,
  release, release_old, retire, add_dead_object, add_new, add_ref, bucket,
}
use easygametools.Memory.Sound.{Sound, SoundBut}
use easygametools.Memory.Handles.{live-CanAssign}
use easygametools.Memory.Allocation.{Source, operator_new-SoundBut}
use easygametools.Memory.Collector.{
  collect_remaining, collect_garbage, collect_buckets, delete_live, print_stats,
}
use easygametools.Memory.Reachable.{Step, Reaches, Reachable, reaches-Sound, new_memory-Sound}
use easygametools.Memory.Safety.{
  Reachable-target, assign-target, Reachable-collect_remaining, self_assign-operator_new,
}

abbrev memory_of : Result Memory → Memory
memory_of (ok m) = m
memory_of (err e) = new_memory

abbrev made_of : Result (ℕ × Memory) → Memory
made_of (ok (p, m)) = m
made_of (err e) = new_memory

-- `new` of 8 bytes at the address 100, then an assignment to the variable 1.
abbrev with_object : Memory
unfolding create operator_new reuse construct lookup insert
with_object = made_of (create 100 8 [] new_memory)

abbrev pub with_handle : Memory
unfolding create operator_new reuse construct lookup insert assign release_old add_new add_ref
with_handle = memory_of (assign 1 (some 100) with_object)

pub with_handle-Reachable : Reachable with_handle
unfolding create operator_new reuse construct lookup insert assign release_old add_new add_ref
with_handle-Reachable =
    Reaches.after
      (Reaches.after Reaches.here
        (Step.created 100 8 100 [] {m = new_memory} {m' = with_object} refl (omega arith) refl))
      (Step.assigned 1 (some 100) {m = with_object} {m' = with_handle}
        (live-CanAssign 1 100 with_object (1, refl) (omega arith) (λ e. absurd cc)) refl)

Reachable-target_example :
    (c : Cell) × (with_handle.cells 100 ≡ some c)
    × (c.ref_count ≡ 1)
    × ((i : ℕ) × (lookup i with_handle.live ≡ some 100))
unfolding create operator_new reuse construct lookup insert assign release_old add_new add_ref
Reachable-target_example = Reachable-target with_handle 1 100 with_handle-Reachable refl

assign-target_example :
    (m' : Memory) × (assign 2 (some 100) with_handle ≡ ok m')
    × Sound m'
    × (m'.handles ≡ insert 2 (some 100) with_handle.handles)
    × (target 2 m' ≡ some 100)
unfolding create operator_new reuse construct lookup insert assign release_old add_new add_ref
assign-target_example =
    assign-target 2 (some 100) with_handle (reaches-Sound with_handle-Reachable new_memory-Sound)
      (live-CanAssign 2 100 with_handle (1, refl) (omega arith) (λ e. absurd cc))

Reachable-collect_remaining_example :
    Ensures
      (collect_remaining with_handle)
      (λ (stats, m'). ((q : ℕ) → m'.cells q ≡ none) × (m'.live ≡ []))
unfolding create operator_new reuse construct lookup insert assign release_old add_new add_ref
Reachable-collect_remaining_example =
    Reachable-collect_remaining with_handle with_handle-Reachable (λ e. absurd (omega (arith, e)))

self_assign-operator_new_example :
    Ensures
      (assign 1 (some 100) with_handle >>= operator_new 200 8)
      (λ (q, m'). (q ≡ 100) × (target 1 m' ≡ some 100))
unfolding create operator_new reuse construct lookup insert assign release_old add_new add_ref
self_assign-operator_new_example =
    self_assign-operator_new 1 100 200
      (record { size = 8; ref_count = 1; mem_id = 1; members = [] }) with_handle refl refl refl refl
      refl refl

-- The handle goes, and the object joins the pool.
abbrev with_pool : Memory
unfolding create operator_new reuse construct lookup insert remove assign drop release_old release
    retire add_dead_object add_new add_ref
with_pool = memory_of (drop 1 with_handle)

with_pool-Sound : Sound with_pool
unfolding create operator_new reuse construct lookup insert remove assign drop release_old release
    retire add_dead_object add_new add_ref
with_pool-Sound =
    reaches-Sound
      (Reaches.after with_handle-Reachable (Step.dropped 1 {m = with_handle} {m' = with_pool} refl))
      new_memory-Sound

operator_new-SoundBut_example : Ensures (operator_new 200 8 with_pool) (λ (p, m').
    SoundBut (some (p, 8)) m' × Source 200 8 (bucket 8 with_pool.dead) with_pool (p, m'))
unfolding create operator_new reuse construct lookup insert remove assign drop release_old release
    retire add_dead_object add_new add_ref
operator_new-SoundBut_example = operator_new-SoundBut 200 8 with_pool with_pool-Sound refl

-- The statistics of a run that made no object.
no_object : collect_remaining new_memory ≡ err division_by_zero
unfolding collect_remaining collect_garbage collect_buckets delete_live print_stats
no_object = refl

-- What holds another object gives it up when its memory is used again.
abbrev holder : Memory
unfolding create operator_new reuse construct lookup insert remove assign drop release_old release
    retire add_dead_object add_new add_ref
holder = memory_of (
    assign 3 (some 300)
      (made_of (create 300 16 (2 ∷ []) (memory_of (assign 2 (some 100) with_handle)))))

abbrev reused : Memory
unfolding create operator_new reuse construct destroy lookup insert remove assign drop release_old
    release retire add_dead_object add_new add_ref
reused = made_of (create 400 16 [] (memory_of (drop 3 (memory_of (drop 1 holder)))))

member_released : (bucket 16 reused.dead ≡ []) × (bucket 8 reused.dead ≡ 100 ∷ [])
unfolding create operator_new reuse construct destroy lookup insert remove assign drop release_old
    release retire add_dead_object add_new add_ref
member_released = (refl, refl)
