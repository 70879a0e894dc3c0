-- ===== src/Pool/Growth.antt =====
-- The size of a pool of ThreadPool.cpp: `currentSize` and `maxSize`.
use easygametools.Base.{
  ℕ, suc, ◌+◌, ◌≡◌, refl, ap, ◌∙◌, true, false, some, List, [], ◌∷◌, ◌++◌, length, length-append,
  if_true, if_false, ==_refl, arith,
}
use easygametools.Base.Int.{ltb_ℤ}
use easygametools.Base.Outcome.{Result, ok, ◌>>=◌, Ensures, Ensures-bind, Ensures-weaken}
use easygametools.Pool.{
  ThreadPool, set_worker, new_worker, grown, grow, dispatch_to, execute_on, execute,
}
use easygametools.Pool.Refinement.{execute-started}
use easygametools.Pool.Accounts.{offer-idle, get_elem?-append_one, length-set_worker}

-- One task after another; `begins` is what `Thread::start` gives for each worker.
unfoldable pub execute_all : (ℕ → Result (Unit {0})) → List ℕ → ThreadPool → Result ThreadPool
execute_all begins [] p = ok p
execute_all begins (t ∷ ts) p = do
  p' ← execute (begins (length p.workers)) t p
  execute_all begins ts p'

-- A pool that runs, has no free worker and stands below its maximum.
abbrev pub IsBusyBelow : ThreadPool → Type 0
IsBusyBelow p =
    (p.started ≡ true)
    × (p.is_closing ≡ false)
    × (p.thread_pool ≡ [])
    × (ltb_ℤ p.current_size p.max_size ≡ true)

-- The new worker is the one that takes the task.
execute-grown :
    (t : ℕ) (p : ThreadPool)
    → IsBusyBelow p
    → execute (ok tt) t p
      ≡ ok (record (grown p) {
        thread_pool = [];
        workers =
            set_worker
              (length p.workers)
              (record { has_listener = false; submitted = some t })
              (grown p).workers;
      })
unfolding execute_on grow grown dispatch_to
execute-grown t p (started, running, none_free, below) =
    execute-started (ok tt) t p started
    ∙ if_false (ok p) p.is_closing running
    ∙ ap (λ l. execute_on (ok tt) l t p) none_free
    ∙ if_true (ok (record p { task_queue = p.task_queue ++ t ∷ [] }))
        (ltb_ℤ p.current_size p.max_size) below
    ∙ ap (λ l. dispatch_to (l ++ length p.workers ∷ []) t (grown p)) none_free
    ∙ offer-idle (length p.workers) t (new_worker false) (record (grown p) { thread_pool = [] })
        (get_elem?-append_one (length p.workers) p.workers (new_worker false)
          ∙ rw (==_refl (length p.workers)) refl)
        refl

-- It makes another thread, and is as before.
execute-grows :
    (t : ℕ) (p : ThreadPool)
    → IsBusyBelow p
    → Ensures (execute (ok tt) t p) (λ p'.
      IsBusyBelow p'
      × (length p'.workers ≡ suc (length p.workers))
      × (p'.task_queue ≡ p.task_queue))
unfolding grown
execute-grows t p h = rw (execute-grown t p h) (
  (h.0, h.1, refl, h.3),
  omega (
    arith,
    length-append p.workers (new_worker false ∷ []),
    length-set_worker (length p.workers) (record { has_listener = false; submitted = some t })
        (p.workers ++ new_worker false ∷ []),
  ),
  refl,
)

-- A pool that is started, has no free worker and whose `currentSize` is below `maxSize` makes a new
-- thread for each task it is given, however many come, if the system starts each thread, and puts none
-- into the queue: `maxSize` is no bound on the threads.
pub execute_all-grows :
    (begins : ℕ → Result (Unit {0})) (ts : List ℕ) (p : ThreadPool)
    → ((w : ℕ) → begins w ≡ ok tt)
    → IsBusyBelow p
    → Ensures (execute_all begins ts p) (λ p'.
      IsBusyBelow p'
      × (length p'.workers ≡ length ts + length p.workers)
      × (p'.task_queue ≡ p.task_queue))
unfolding execute_all
execute_all-grows begins [] p starts h = (h, omega arith, refl)
execute_all-grows begins (t ∷ ts) p starts h = rw (starts (length p.workers)) (
    Ensures-bind (execute (ok tt) t p) (execute_all begins ts) _ _ (execute-grows t p h)
      (λ p' (h', more, same).
        Ensures-weaken (execute_all begins ts p') _ _ (execute_all-grows begins ts p' starts h')
          (λ p'' (h'', more', same'). (h'', omega (arith, more, more'), same' ∙ same))))
