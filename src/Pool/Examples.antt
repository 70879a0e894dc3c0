-- ===== src/Pool/Examples.antt =====
-- Tests of the model of ThreadPool.cpp: a pool of one thread.
use easygametools.Pool.Delivery.{
  Delivery, enter_section, new_delivery, deliver_task, sleep_turns, deliver_task-not_owner,
}
use easygametools.Base.{ℕ, arith, none, ◌≡◌, refl, Bool, true, false, some, List, [], ◌∷◌, length}
use easygametools.Base.Int.{pos}
use easygametools.Base.Outcome.{Result, ok, err, not_owner, ◌>>=◌, Ensures}
use easygametools.Pool.{
  ThreadPool, RunQueueEventType, new_thread_pool, first_workers, first_threads, start, rotate,
  execute, execute_on, dispatch_to, offer, offer_to, grow, grown, run_turn, run_task, TaskEnd,
}
use easygametools.Pool.Accounts.{WellFormed}
use easygametools.Pool.Opening.{start-WellFormed}
use easygametools.Pool.Refinement.{SpecStep, Succeeds, account, execute_event, execute-SpecStep}
use easygametools.Pool.Growth.{execute_all, IsBusyBelow, execute_all-grows}
use easygametools.Pool.Sections.{
  System, execute_calls, event_calls, schedule, system_of, IsDeadlocked,
}
use easygametools.Pool.Locks.{full-IsDeadlocked}

-- Each thread begins, and each task returns.
abbrev all_begin : ℕ → Result (Unit {0})
all_begin w = ok tt

abbrev all_return : ℕ → TaskEnd
all_return t = TaskEnd.returns

abbrev pool_of : Result ThreadPool → ThreadPool
pool_of (ok p) = p
pool_of (err e) = new_thread_pool (pos 1) (pos 1)

abbrev opened : ThreadPool
unfolding start new_thread_pool rotate first_workers first_threads
opened = pool_of (start all_begin (new_thread_pool (pos 1) (pos 1)))

-- The task 7 has the thread; with 8 and 9 two wait.
abbrev busy : ThreadPool
unfolding execute execute_on dispatch_to offer offer_to
busy = pool_of (execute (ok tt) 7 opened)

abbrev waiting : ThreadPool
unfolding execute execute_on dispatch_to offer offer_to
waiting = pool_of (execute (ok tt) 9 (pool_of (execute (ok tt) 8 busy)))

opened-WellFormed : WellFormed opened
unfolding start new_thread_pool rotate first_workers first_threads
opened-WellFormed = start-WellFormed all_begin (pos 1) (pos 1)

execute-SpecStep_example :
    Succeeds
      (ok tt)
      (execute (ok tt) 7 opened)
      (λ p'. WellFormed p' × SpecStep (execute_event opened 7) (account opened) (account p'))
unfolding start new_thread_pool rotate first_workers first_threads
execute-SpecStep_example = execute-SpecStep (ok tt) 7 opened opened-WellFormed refl

-- One thread to begin with, and two at most: the first task takes the one that there is.
abbrev below : ThreadPool
unfolding start new_thread_pool rotate first_workers first_threads execute execute_on dispatch_to
    offer offer_to
below = pool_of (execute (ok tt) 1 (pool_of (start all_begin (new_thread_pool (pos 1) (pos 2)))))

execute_all-grows_example :
    Ensures
      (execute_all all_begin (2 ∷ 3 ∷ 4 ∷ []) below)
      (λ p'. IsBusyBelow p' × (length p'.workers ≡ 4) × (p'.task_queue ≡ []))
unfolding start new_thread_pool rotate first_workers first_threads execute execute_on dispatch_to
    offer offer_to
execute_all-grows_example =
    execute_all-grows all_begin (2 ∷ 3 ∷ 4 ∷ []) below (λ w. refl) (refl, refl, refl, refl)

-- What `execute` made is not given back: the thread has no listener.
not_given_back :
    (pool_of (execute_all all_begin (2 ∷ []) below >>= run_turn all_return 1)).thread_pool ≡ []
unfolding start new_thread_pool rotate first_workers first_threads execute execute_all execute_on
    dispatch_to grow grown offer offer_to run_turn run_task
not_given_back = refl

full-IsDeadlocked_example :
    (ts : List Bool) × (s : System) × (schedule ts
        (system_of (execute_calls busy) (event_calls RunQueueEventType.evt_completed busy))
      ≡ some s)
    × IsDeadlocked s
unfolding start new_thread_pool rotate first_workers first_threads execute execute_on dispatch_to
    offer offer_to
full-IsDeadlocked_example = full-IsDeadlocked busy refl refl refl refl refl

deliver_task-not_owner_example :
    (enter_section 2 (new_delivery 1) ≡ none)
    × (deliver_task 5 (new_delivery 1) ≡ err not_owner)
    × Ensures (deliver_task 1 (new_delivery 1)) (λ l.
      (l' : Delivery) × (sleep_turns (true ∷ false ∷ true ∷ []) 2 l ≡ some (ok l'))
      × (deliver_task 3 l' ≡ err not_owner))
deliver_task-not_owner_example =
    deliver_task-not_owner 1 2 5 3 true (false ∷ true ∷ []) (λ e. absurd (omega (arith, e)))
      (λ e. absurd (omega (arith, e))) (λ e. absurd (omega (arith, e)))
