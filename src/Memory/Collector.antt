-- ===== src/Memory/Collector.antt =====
-- The collector of game_client/game_client/Reference.cpp: `CollectGarbage`, `CollectRemainingObjects`
-- and `printStats`. The program collects only while it is closing.
use easygametools.Base.{
  ℕ, ◌+◌, ◌%◌, ◌/◌, ◌^◌, Bool, true, none, List, [], ◌∷◌, if◌then◌else◌, ◌==◌, ltb, leb, ◌&&◌,
}
use easygametools.Base.Int.{ℤ, pos, negsuc}
use easygametools.Base.Table.{Table, nat_eq, insert}
use easygametools.Base.Outcome.{Result, ok, err, dangling, division_by_zero, ◌>>=◌, or_error}
use easygametools.Memory.{Memory, put_cell, destroy}

-- `delete obj`, which gives the size back: the object must still be there.
unfoldable pub delete_object : ℕ → Memory → Result (ℕ × Memory)
delete_object p m = do
  c ← or_error (m.cells p) dangling
  m' ← destroy c.members m
  ok (c.size, record m' { cells = put_cell p none m'.cells })

-- `while (arr->length() > 0)`, for the list of one size; `deleted` is a 32-bit `long`.
unfoldable pub empty_bucket : ℕ → List ℕ → ℕ → Memory → Result (ℕ × Memory)
empty_bucket size [] deleted m = ok (deleted, m)
empty_bucket size (p ∷ ps) deleted m = do
  (freed, m') ← delete_object p (record m { dead = insert size ps m.dead })
  empty_bucket size ps ((deleted + freed) % 2 ^ 32) m'

-- `kb > 0` and `deleted/1024 >= kb`
abbrev pub enough : ℕ → ℕ → Bool
enough kb deleted = ltb 0 kb && ltb deleted (2 ^ 31) && leb kb (deleted / 1024)

-- `while(it())`, over the sizes
unfoldable pub collect_buckets : ℕ → Table ℕ (List ℕ) → ℕ → Memory → Result Memory
collect_buckets kb [] deleted m = ok (record m { dead = [] })
collect_buckets kb ((size, ps) ∷ t) deleted m = do
  (deleted', m') ← empty_bucket size ps deleted m
  let rest = collect_buckets kb t deleted' m'
  if enough kb deleted' then ok m' else rest

-- `Reference::CollectGarbage`
unfoldable pub collect_garbage : ℤ → Memory → Result Memory
collect_garbage (negsuc n) m = ok m
collect_garbage (pos kb) m = collect_buckets kb m.dead 0 m

-- `delete arr` for every live object
unfoldable pub delete_live : Table ℕ ℕ → Memory → Result Memory
delete_live [] m = ok m
delete_live ((id, p) ∷ t) m = do (freed, m') ← delete_object p m; delete_live t m'

-- The numbers that `printStats` hands on to be written.
pub record Stats : Type 0 where
  pub allocated : ℕ
  pub used : ℕ
  pub made : ℕ
  pub average : ℕ

-- `Reference::printStats`
unfoldable pub print_stats : Memory → Result Stats
print_stats m =
    if m.mem_objects_total == 0
    then err division_by_zero
    else ok (record {
      allocated = m.total_allocated;
      used = m.total_used;
      made = m.mem_objects_total;
      average = m.total_used / m.mem_objects_total;
    })

-- `Reference::CollectRemainingObjects`
unfoldable pub collect_remaining : Memory → Result (Stats × Memory)
unfolding collect_garbage delete_live print_stats
collect_remaining m = do
  m' ← collect_garbage (pos 0) (record m { is_closing = true })
  m'' ← delete_live m'.live m'
  stats ← print_stats (record m'' { live = [] })
  ok (stats, record m'' { live = [] })
