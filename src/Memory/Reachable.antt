-- ===== src/Memory/Reachable.antt =====
-- What a client of Reference.h may do, step by step, and the memories it comes to.
use easygametools.Base.{ℕ, ◌+◌, ◌^◌, ◌<◌, ◌≡◌, refl, Option, none, List, arith}
use easygametools.Base.Table.{nat_eq, lookup}
use easygametools.Base.Outcome.{ok, Ensures-ok}
use easygametools.Memory.{Memory, new_memory, assign, drop, create}
use easygametools.Memory.Sound.{Sound}
use easygametools.Memory.Handles.{CanAssign, drop-SoundBut, assign-SoundBut}
use easygametools.Memory.Creation.{create-Sound}

-- A new object, whose memory `malloc` takes from where none is; an assignment; the end of a handle.
pub data Step : Memory → Memory → Type 0 where
  created :
      (fresh size p : ℕ) (members : List ℕ) {m m' : Memory}
      → m.cells fresh ≡ none
      → m.mem_id_master + 1 < 2 ^ 64
      → create fresh size members m ≡ ok (p, m')
      → Step m m'
  assigned :
      (v : ℕ) (o : Option ℕ) {m m' : Memory} → CanAssign v o m → assign v o m ≡ ok m' → Step m m'
  dropped : (v : ℕ) {m m' : Memory} → drop v m ≡ ok m' → Step m m'

pub data Reaches : Memory → Memory → Type 0 where
  here : {m : Memory} → Reaches m m
  after : {m m' m'' : Memory} → Reaches m m' → Step m' m'' → Reaches m m''

pub new_memory-Sound : Sound new_memory
unfolding lookup
new_memory-Sound = record {
  places = λ q. (refl, (λ s. refl), (λ i. refl), refl);
  fresh = λ i le. refl;
  live_keys = tt;
  dead_keys = tt;
  fits = λ q. omega arith;
  running = refl;
}

Step-Sound : {m m' : Memory} → Step m m' → Sound m → Sound m'
Step-Sound (Step.created fresh size p members {m} unused bound made) h =
    (Ensures-ok (create fresh size members m) _ made
      (create-Sound fresh size members m h unused bound)).0
Step-Sound (Step.assigned v o {m} can made) h =
    (Ensures-ok (assign v o m) _ made (assign-SoundBut none v o m h can)).0
Step-Sound (Step.dropped v {m} made) h = (Ensures-ok (drop v m) _ made (drop-SoundBut none v m h)).0

pub reaches-Sound : {m m' : Memory} → Reaches m m' → Sound m → Sound m'
reaches-Sound Reaches.here h = h
reaches-Sound (Reaches.after way step) h = Step-Sound step (reaches-Sound way h)

-- Where the program starts.
abbrev pub Reachable : Memory → Type 0
Reachable m = Reaches new_memory m
