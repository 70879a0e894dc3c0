-- ===== src/Pool/Delivery.antt =====
-- `deliveryLock` of game_client/game_client/RunQueue.h, on which a worker is to sleep until it has a task.
--
-- A critical section belongs to the thread that has entered it, which may enter it again, and only that
-- thread may leave it, as often as it has entered. A number stands for a thread.
use easygametools.Base.{
  Bool, true, false, List, [], ◌∷◌, ℕ, zero, suc, ◌+◌, ◌≡◌, ◌≢◌, ◌==◌, ==_iff, ==_refl, refl, sym,
  Option, none, some, arith, if◌then◌else◌,
}
use easygametools.Base.Outcome.{Result, ok, err, not_owner, Ensures}

-- Who has entered the section, and how often.
pub record Delivery : Type 0 where
  pub owner : Option ℕ
  pub count : ℕ

-- `Semaphore::lock`; none where the thread has to wait.
unfoldable pub enter_section : ℕ → Delivery → Option Delivery
enter_section t l = elim l.owner [
  | none ↦ some (record { owner = some t; count = 1 })
  | some o ↦ if o == t then some (record { owner = some o; count = l.count + 1 }) else none
]

abbrev pub after_leaving : ℕ → ℕ → Delivery
after_leaving t zero = record { owner = none; count = 0 }
after_leaving t (suc zero) = record { owner = none; count = 0 }
after_leaving t (suc (suc n)) = record { owner = some t; count = suc n }

-- `Semaphore::unlock`
unfoldable pub leave_section : ℕ → Delivery → Result Delivery
leave_section t l = elim l.owner [
  | none ↦ err not_owner
  | some o ↦ if o == t then ok (after_leaving t l.count) else err not_owner
]

-- `RunQueue::RunQueue`, in the thread that makes the worker.
unfoldable pub new_delivery : ℕ → Delivery
new_delivery creator = record { owner = some creator; count = 1 }

-- `RunQueue::offer`, where the worker is free, and `RunQueue::signal`.
unfoldable pub deliver_task : ℕ → Delivery → Result Delivery
unfolding leave_section
deliver_task t l = leave_section t l

-- A turn of `RunQueue::run`: the two calls of `lock`. Where the worker takes a task from the pool's queue,
-- `ThreadPool::runQueueEvent` offers it to the worker in between, in the worker's own thread; `takes`
-- tells whether it does. None where the worker has to wait.
unfoldable pub sleep_turn : ℕ → Bool → Delivery → Option (Result Delivery)
unfolding enter_section deliver_task
sleep_turn worker takes l = elim (enter_section worker l) [
  | none ↦ none
  | some l1 ↦ elim (if takes then deliver_task worker l1 else ok l1) [
    | err e ↦ some (err e)
    | ok l2 ↦ elim (enter_section worker l2) [ none ↦ none | some l3 ↦ some (ok l3) ]
  ]
]

-- Turn after turn, until one waits or throws.
unfoldable pub sleep_turns : List Bool → ℕ → Delivery → Option (Result Delivery)
unfolding sleep_turn
sleep_turns [] worker l = some (ok l)
sleep_turns (takes ∷ ts) worker l = elim (sleep_turn worker takes l) [
  | none ↦ none
  | some r ↦ elim r [ err e ↦ some (err e) | ok l' ↦ sleep_turns ts worker l' ]
]

abbrev held : ℕ → ℕ → Delivery
held worker n = record { owner = some worker; count = n }

-- The first turn finds the section free, or entered by the worker, and leaves it entered.
sleep_turn-free :
    (worker : ℕ) (takes : Bool)
    → (k : ℕ) × (sleep_turn worker takes (after_leaving worker 1) ≡ some (ok (held worker (suc k))))
unfolding sleep_turn enter_section deliver_task leave_section
sleep_turn-free worker true = (0, ground (arith, ==_refl worker))
sleep_turn-free worker false = (1, ground (arith, ==_refl worker))

sleep_turn-held :
    (worker k : ℕ) (takes : Bool)
    → (j : ℕ) × (sleep_turn worker takes (held worker (suc k)) ≡ some (ok (held worker (suc j))))
unfolding sleep_turn enter_section deliver_task leave_section
sleep_turn-held worker k true = (suc k, ground (arith, ==_refl worker))
sleep_turn-held worker k false = (suc (suc k), ground (arith, ==_refl worker))

sleep_turns-held :
    (ts : List Bool) (worker k : ℕ)
    → (j : ℕ) × (sleep_turns ts worker (held worker (suc k)) ≡ some (ok (held worker (suc j))))
unfolding sleep_turns
sleep_turns-held [] worker k = (k, refl)
sleep_turns-held (takes ∷ ts) worker k =
    let (j, turn) = sleep_turn-held worker k takes in
    let (i, rest) = sleep_turns-held ts worker j in (i, rw (sleep_turns, turn) rest)

sleep_turns-free :
    (takes : Bool) (ts : List Bool) (worker : ℕ)
    → (j : ℕ) × (sleep_turns (takes ∷ ts) worker (after_leaving worker 1)
        ≡ some (ok (held worker (suc j))))
unfolding sleep_turns
sleep_turns-free takes ts worker =
    let (k, turn) = sleep_turn-free worker takes in
    let (j, rest) = sleep_turns-held ts worker k in (j, rw (sleep_turns, turn) rest)

leave_section-other :
    (t worker n : ℕ) → worker ≢ t → leave_section t (held worker n) ≡ err not_owner
unfolding leave_section
leave_section-other t worker n other = ground (arith, ==_iff worker t)

-- deliveryLock does not let a worker sleep. The worker waits until a task is offered to it by the thread
-- that made it; a first task from any other thread makes that thread leave a section that it is not in.
-- From then on the worker has entered the section itself and never waits again, however many turns it
-- makes, and whether or not it takes a task from the pool's queue in each; after one turn or more, every
-- other thread that offers a task leaves a section that it is not in.
pub deliver_task-not_owner :
    (creator worker first other : ℕ) (takes : Bool) (ts : List Bool)
    → creator ≢ worker
    → first ≢ creator
    → other ≢ worker
    → (enter_section worker (new_delivery creator) ≡ none)
      × (deliver_task first (new_delivery creator) ≡ err not_owner)
      × Ensures (deliver_task creator (new_delivery creator)) (λ l.
        (l' : Delivery) × (sleep_turns (takes ∷ ts) worker l ≡ some (ok l'))
        × (deliver_task other l' ≡ err not_owner))
unfolding enter_section new_delivery deliver_task leave_section
deliver_task-not_owner creator worker first other takes ts apart stranger not_worker =
    let (j, turns) = sleep_turns-free takes ts worker in
    (
      ground (arith, ==_iff creator worker),
      leave_section-other first creator 1 (λ e. stranger (sym e)),
      rw (==_refl creator) (
        held worker (suc j),
        turns,
        leave_section-other other worker (suc j) (λ e. not_worker (sym e)),
      ),
    )
