-- ===== src/Pool/Locks.antt =====
-- The critical sections of ThreadPool.cpp: one thread alone, and two that wait for each other.
use easygametools.Base.{
  ℕ, ◌≡◌, refl, ap, ◌∙◌, Bool, true, false, not, some, List, [], ◌∷◌, if◌then◌else◌, if_true,
  if_false, Bool-cases, inl, inr,
}
use easygametools.Base.Int.{ltb_ℤ}
use easygametools.Base.Outcome.{ok, err, not_owner}
use easygametools.Pool.{ThreadPool, RunQueueEventType}
use easygametools.Pool.Sections.{
  Section, SectionCall, execute_on_calls, execute_calls, complete_calls, event_calls, Entered,
  run_calls, System, perform, schedule, IsDeadlocked, system_of,
}

execute_on_calls-balanced :
    (free : List ℕ) (below : Bool) (e : Entered) → run_calls (execute_on_calls free below) e ≡ ok e
unfolding run_calls
execute_on_calls-balanced [] false e = refl
execute_on_calls-balanced [] true e = refl
execute_on_calls-balanced (w ∷ ws) false e = refl
execute_on_calls-balanced (w ∷ ws) true e = refl

execute_calls-balanced : (p : ThreadPool) (e : Entered) → run_calls (execute_calls p) e ≡ ok e
unfolding run_calls execute_calls
execute_calls-balanced p e = elim (Bool-cases (not p.started)) [
  | inl stopped ↦ ap (λ l. run_calls l e) (if_true _ (not p.started) stopped)
  | inr started ↦
      ap (λ l. run_calls l e) (if_false [] (not p.started) started)
      ∙ elim (Bool-cases p.is_closing) [
        | inl closing ↦ ap (λ l. run_calls l e) (if_true _ p.is_closing closing)
        | inr running ↦
            ap (λ l. run_calls l e) (if_false [] p.is_closing running)
            ∙ execute_on_calls-balanced p.thread_pool (ltb_ℤ p.current_size p.max_size) e
      ]
]

abbrev pub is_empty : List ℕ → Bool
is_empty [] = true
is_empty (t ∷ ts) = false

abbrev pub outside : Entered
outside = record { task_queue_count = 0; thread_pool_count = 0 }

complete_calls-owner :
    (queue : List ℕ)
    → run_calls (complete_calls queue) outside
      ≡ (if is_empty queue then ok outside else err not_owner)
unfolding run_calls
complete_calls-owner [] = refl
complete_calls-owner (t ∷ ts) = refl

-- In every pool a thread that is in no section is in none after `execute`, where the worker takes the
-- task. After `runQueueEvent` for a worker that is done it is in none if the queue was empty; if a task
-- waited, it leaves a section that it is not in.
calls-balance :
    (p : ThreadPool)
    → (run_calls (execute_calls p) outside ≡ ok outside)
      × (run_calls (event_calls RunQueueEventType.evt_completed p) outside
          ≡ (if is_empty p.task_queue then ok outside else err not_owner))
unfolding event_calls
calls-balance p = (execute_calls-balanced p outside, complete_calls-owner p.task_queue)

full-calls :
    (p : ThreadPool)
    → p.started ≡ true
    → p.is_closing ≡ false
    → p.thread_pool ≡ []
    → ltb_ℤ p.current_size p.max_size ≡ false
    → execute_calls p ≡ execute_on_calls [] false
unfolding execute_calls
full-calls p started running none_free full =
    if_false [] (not p.started) (ap not started)
    ∙ if_false [] p.is_closing running
    ∙ ap (λ l. execute_on_calls l (ltb_ℤ p.current_size p.max_size)) none_free
    ∙ ap (λ b. execute_on_calls [] b) full

-- The one is in `threadPoolSem` and waits for `taskQueueSem`, the other the other way round.
abbrev crossed : System
crossed = record {
  in_queue = some true;
  in_pool = some false;
  first_calls =
      SectionCall.lock Section.task_queue_sem
      ∷ SectionCall.unlock Section.task_queue_sem
      ∷ SectionCall.unlock Section.thread_pool_sem
      ∷ [];
  second_calls =
      SectionCall.lock Section.thread_pool_sem
      ∷ SectionCall.unlock Section.thread_pool_sem
      ∷ SectionCall.unlock Section.task_queue_sem
      ∷ [];
}

crossed-IsDeadlocked : IsDeadlocked crossed
unfolding perform
crossed-IsDeadlocked false = ((_, _, refl), refl)
crossed-IsDeadlocked true = ((_, _, refl), refl)

crossed-reached :
    schedule (false ∷ true ∷ []) (system_of (execute_on_calls [] false) (complete_calls []))
    ≡ some crossed
unfolding schedule perform
crossed-reached = refl

-- In a pool that is started, with all threads busy, as many as it may have and an empty queue, a thread
-- that gives it a task and a worker that finishes may wait for each other for ever.
pub full-IsDeadlocked :
    (p : ThreadPool)
    → p.started ≡ true
    → p.is_closing ≡ false
    → p.thread_pool ≡ []
    → ltb_ℤ p.current_size p.max_size ≡ false
    → p.task_queue ≡ []
    → (ts : List Bool) × (s : System) × (schedule ts
          (system_of (execute_calls p) (event_calls RunQueueEventType.evt_completed p))
        ≡ some s)
      × IsDeadlocked s
unfolding event_calls
full-IsDeadlocked p started running none_free full empty = (
  false ∷ true ∷ [],
  crossed,
  ap (λ first. schedule (false ∷ true ∷ []) (system_of first (complete_calls p.task_queue)))
        (full-calls p started running none_free full)
      ∙ ap
          (λ l.
            schedule (false ∷ true ∷ []) (system_of (execute_on_calls [] false) (complete_calls l)))
          empty
      ∙ crossed-reached,
  crossed-IsDeadlocked,
)
