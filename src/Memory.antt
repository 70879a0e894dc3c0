-- ===== src/Memory.antt =====
-- The reference counts of game_client/game_client/Reference.h and Reference.cpp: `Reference`, its pool
-- of dead objects, and the smart pointer `Object<T>`.
--
-- An address stands for an object, and a number for each `Object<T>` variable, the members of objects
-- included: `handles` has what it points to. A variable that is gone counts as one that is null. What
-- `malloc` returns is an argument. The locks and the logging are left out.
pub mod Counts
pub mod Sound
pub mod Tables
pub mod Counting
pub mod Releasing
pub mod Handles
pub mod Totals
pub mod Allocation
pub mod Creation
pub mod Collector
pub mod Listing
pub mod Everywhere
pub mod Collection
pub mod Reachable
pub mod Safety
pub mod Examples
use easygametools.Base.{
  ℕ, ◌+◌, ◌-◌, ◌%◌, ◌/◌, ◌^◌, Bool, true, false, Option, none, some, List, [], ◌∷◌, ◌++◌,
  if◌then◌else◌, ◌==◌, leb, ltb,
}
use easygametools.Base.Int.{ℤ, pos, negsuc}
use easygametools.Base.Table.{Table, nat_eq, lookup, insert, remove, entry}
use easygametools.Base.Outcome.{Result, ok, err, dangling, division_by_zero, ◌>>=◌, or_error}

-- An object: the members of `Reference`, and the variables among its own members, in the order in which
-- its destructor ends them.
pub record Cell : Type 0 where
  pub size : ℕ
  pub ref_count : ℕ
  pub mem_id : ℕ
  pub members : List ℕ

-- The static members of `Reference`.
pub record Memory : Type 0 where
  pub cells : ℕ → Option Cell
  pub live : Table ℕ ℕ
  pub dead : Table ℕ (List ℕ)
  pub handles : Table ℕ (Option ℕ)
  pub mem_id_master : ℕ
  pub mem_objects_total : ℕ
  pub live_objects_total : ℕ
  pub dead_objects_total : ℕ
  pub total_used : ℕ
  pub total_allocated : ℕ
  pub is_closing : Bool

abbrev pub new_memory : Memory
new_memory = record {
  cells = λ p. none;
  live = [];
  dead = [];
  handles = [];
  mem_id_master = 1;
  mem_objects_total = 0;
  live_objects_total = 0;
  dead_objects_total = 0;
  total_used = 0;
  total_allocated = 0;
  is_closing = false;
}

abbrev pub put_cell : ℕ → Option Cell → (ℕ → Option Cell) → ℕ → Option Cell
put_cell p c cells q = if p == q then c else cells q

-- `deadObjects[key]`
abbrev pub list_of : Option (List ℕ) → List ℕ
list_of none = []
list_of (some ps) = ps

abbrev pub bucket : ℕ → Table ℕ (List ℕ) → List ℕ
bucket s d = list_of (lookup s d)

-- A counter of type `int_u8` has eight bytes.
abbrev pub u64 : ℕ → ℕ
u64 n = n % 2 ^ 64

-- `Reference::addDeadObject`
unfoldable pub add_dead_object : ℕ → ℕ → Memory → Memory
add_dead_object p size m = record m {
  dead = insert size (bucket size m.dead ++ p ∷ []) m.dead;
  dead_objects_total = u64 (m.dead_objects_total + 1);
}

-- `Reference::AddRef`
unfoldable pub add_ref : ℕ → Memory → Result Memory
add_ref p m = do
  c ← or_error (m.cells p) dangling
  ok (record m {
    cells = put_cell p (some (record c { ref_count = u64 (c.ref_count + 1) })) m.cells;
  })

-- The object whose last reference is gone moves from the live to the dead.
unfoldable pub retire : Bool → ℕ → Cell → Memory → Memory
unfolding add_dead_object
retire false p c m = m
retire true p c m = add_dead_object p c.size (record m { live = remove c.mem_id m.live })

-- `Reference::Release`
unfoldable pub release : ℕ → Memory → Result Memory
unfolding retire
release p m = do
  c ← or_error (m.cells p) dangling
  let count = u64 (c.ref_count + 2 ^ 64 - 1)
  ok (
      retire (count == 0) p c
        (record m { cells = put_cell p (some (record c { ref_count = count })) m.cells }))

-- `if(obj)obj->Release()` and `if(obj)obj->AddRef()`
unfoldable pub release_old : Option ℕ → Memory → Result Memory
release_old none m = ok m
release_old (some p) m = release p m

unfoldable pub add_new : Option ℕ → Memory → Result Memory
add_new none m = ok m
add_new (some p) m = add_ref p m

abbrev pub target : ℕ → Memory → Option ℕ
target v m = entry (lookup v m.handles)

-- `Object<T>::operator=`, of a pointer or of another variable's.
unfoldable pub assign : ℕ → Option ℕ → Memory → Result Memory
assign v new m = if m.is_closing then ok (record m { handles = insert v new m.handles }) else do
  m' ← release_old (target v m) m
  add_new new (record m' { handles = insert v new m'.handles })

-- `~Object()`
unfoldable pub drop : ℕ → Memory → Result Memory
drop v m =
    if m.is_closing
    then ok m
    else do m' ← release_old (target v m) m; ok (record m' { handles = insert v none m'.handles })

-- The destructor of an object runs those of its members.
unfoldable pub destroy : List ℕ → Memory → Result Memory
destroy [] m = ok m
destroy (v ∷ vs) m = do m' ← drop v m; destroy vs m'

-- What `operator new` does with the dead objects of the size; `fresh` is what `malloc` returns. The
-- fields of new memory have no value yet: the constructor sets them.
unfoldable pub reuse : ℕ → ℕ → List ℕ → Memory → Result (ℕ × Memory)
reuse fresh size [] m = ok (
  fresh,
  record m {
    dead = insert size [] m.dead;
    total_allocated = u64 (m.total_allocated + size);
    cells =
        put_cell fresh (some (record { size = size; ref_count = 0; mem_id = 0; members = [] }))
          m.cells;
  },
)
reuse fresh size (p ∷ rest) m = do
  c ← or_error (m.cells p) dangling
  m' ← destroy c.members (record m { dead = insert size rest m.dead })
  ok (p, m')

-- `Reference::operator new`
unfoldable pub operator_new : ℕ → ℕ → Memory → Result (ℕ × Memory)
operator_new fresh size m =
    reuse fresh size (bucket size m.dead) (record m { total_used = u64 (m.total_used + size) })

-- `Reference()`, for an object with these members.
unfoldable pub construct : ℕ → List ℕ → Memory → Result Memory
construct p members m = do
  c ← or_error (m.cells p) dangling
  ok (record m {
    cells =
        put_cell p (some (record c { ref_count = 0; mem_id = m.mem_id_master; members = members }))
          m.cells;
    live = insert m.mem_id_master p m.live;
    mem_id_master = u64 (m.mem_id_master + 1);
    mem_objects_total = u64 (m.mem_objects_total + 1);
    live_objects_total = u64 (m.live_objects_total + 1);
  })

-- `new T(…)`, where the constructor does not throw.
unfoldable pub create : ℕ → ℕ → List ℕ → Memory → Result (ℕ × Memory)
create fresh size members m = do
  (p, m') ← operator_new fresh size m
  m'' ← construct p members m'
  ok (p, m'')
