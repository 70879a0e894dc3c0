-- ===== src/Pool/Sections.antt =====
-- The critical sections of ThreadPool.cpp (`taskQueueSem`, `threadPoolSem`): which of them `execute`
-- and `runQueueEvent` enter and leave, in which order, and what two threads make of it.
use easygametools.Base.{
  ℕ, zero, suc, ◌≡◌, Bool, true, false, not, Option, none, some, List, [], ◌∷◌, if◌then◌else◌,
}
use easygametools.Base.Int.{ltb_ℤ}
use easygametools.Base.Outcome.{Result, ok, err, not_owner, ◌>>=◌}
use easygametools.Pool.{ThreadPool, RunQueueEventType}

pub data Section : Type 0 where
  task_queue_sem thread_pool_sem : Section

-- `Semaphore::lock` and `Semaphore::unlock`
pub data SectionCall : Type 0 where
  lock unlock : Section → SectionCall

-- The calls of `execute` where the task finds its place, by the free workers and whether there may be
-- more.
abbrev pub execute_on_calls : List ℕ → Bool → List SectionCall
execute_on_calls [] false =
    SectionCall.lock Section.thread_pool_sem
    ∷ SectionCall.lock Section.task_queue_sem
    ∷ SectionCall.unlock Section.task_queue_sem
    ∷ SectionCall.unlock Section.thread_pool_sem
    ∷ []
execute_on_calls _ _ =
    SectionCall.lock Section.thread_pool_sem ∷ SectionCall.unlock Section.thread_pool_sem ∷ []

unfoldable pub execute_calls : ThreadPool → List SectionCall
execute_calls p =
    if not p.started
    then []
    else if p.is_closing
    then []
    else execute_on_calls p.thread_pool (ltb_ℤ p.current_size p.max_size)

-- The calls of `runQueueEvent`, where the worker joins the free and where it takes the next task.
abbrev pub complete_calls : List ℕ → List SectionCall
complete_calls [] =
    SectionCall.lock Section.task_queue_sem
    ∷ SectionCall.lock Section.thread_pool_sem
    ∷ SectionCall.unlock Section.thread_pool_sem
    ∷ SectionCall.unlock Section.task_queue_sem
    ∷ []
complete_calls (t ∷ ts) =
    SectionCall.lock Section.task_queue_sem
    ∷ SectionCall.unlock Section.task_queue_sem
    ∷ SectionCall.unlock Section.task_queue_sem
    ∷ []

unfoldable pub event_calls : RunQueueEventType → ThreadPool → List SectionCall
event_calls RunQueueEventType.evt_completed p = complete_calls p.task_queue
event_calls _ p = []

-- How often the thread has entered each section.
pub record Entered : Type 0 where
  pub task_queue_count : ℕ
  pub thread_pool_count : ℕ

abbrev pub leave : ℕ → Result ℕ
leave zero = err not_owner
leave (suc n) = ok n

-- The calls of one thread, alone.
unfoldable pub run_calls : List SectionCall → Entered → Result Entered
run_calls [] e = ok e
run_calls (SectionCall.lock Section.task_queue_sem ∷ cs) e =
    run_calls cs (record e { task_queue_count = suc e.task_queue_count })
run_calls (SectionCall.lock Section.thread_pool_sem ∷ cs) e =
    run_calls cs (record e { thread_pool_count = suc e.thread_pool_count })
run_calls (SectionCall.unlock Section.task_queue_sem ∷ cs) e = do
  n ← leave e.task_queue_count
  run_calls cs (record e { task_queue_count = n })
run_calls (SectionCall.unlock Section.thread_pool_sem ∷ cs) e = do
  n ← leave e.thread_pool_count
  run_calls cs (record e { thread_pool_count = n })

-- Two threads: who is in each section (`false` the one, `true` the other), and the calls they have
-- before them. No thread enters a section that it is in.
pub record System : Type 0 where
  pub in_queue : Option Bool
  pub in_pool : Option Bool
  pub first_calls : List SectionCall
  pub second_calls : List SectionCall

abbrev pub calls_of : Bool → System → List SectionCall
calls_of false s = s.first_calls
calls_of true s = s.second_calls

abbrev pub with_calls : Bool → List SectionCall → System → System
with_calls false cs s = record s { first_calls = cs }
with_calls true cs s = record s { second_calls = cs }

-- The next call of the thread; none where it has to wait, or has no more.
unfoldable pub perform : Bool → List SectionCall → System → Option System
perform t [] s = none
perform t (SectionCall.lock Section.task_queue_sem ∷ cs) s = elim s.in_queue [
  | none ↦ some (with_calls t cs (record s { in_queue = some t }))
  | some o ↦ none
]
perform t (SectionCall.lock Section.thread_pool_sem ∷ cs) s = elim s.in_pool [
  | none ↦ some (with_calls t cs (record s { in_pool = some t }))
  | some o ↦ none
]
perform t (SectionCall.unlock Section.task_queue_sem ∷ cs) s =
    some (with_calls t cs (record s { in_queue = none }))
perform t (SectionCall.unlock Section.thread_pool_sem ∷ cs) s =
    some (with_calls t cs (record s { in_pool = none }))

-- The threads take turns as the list says.
unfoldable pub schedule : List Bool → System → Option System
unfolding perform
schedule [] s = some s
schedule (t ∷ ts) s = elim (perform t (calls_of t s) s) [ none ↦ none | some s' ↦ schedule ts s' ]

-- Both have calls before them, and neither can go on.
abbrev pub IsDeadlocked : System → Type 0
IsDeadlocked s =
    ((t : Bool)
      → ((c : SectionCall) × (cs : List SectionCall) × (calls_of t s ≡ c ∷ cs))
        × (perform t (calls_of t s) s ≡ none))

abbrev pub system_of : List SectionCall → List SectionCall → System
system_of first second = record {
  in_queue = none;
  in_pool = none;
  first_calls = first;
  second_calls = second;
}
