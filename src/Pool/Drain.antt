-- ===== src/Pool/Drain.antt =====
-- A worker of ThreadPool.cpp that keeps running, and the queue.
use easygametools.Base.{ℕ, zero, suc, true, some, [], ◌∷◌, ◌++◌}
use easygametools.Base.Outcome.{Result, ok, ◌>>=◌}
use easygametools.Pool.{Worker, ThreadPool, set_worker, new_worker, run_turn, TaskEnd}

-- The loop of `RunQueue::run`, as many turns of it.
unfoldable pub run_turns : (ℕ → TaskEnd) → ℕ → ℕ → ThreadPool → Result ThreadPool
run_turns ends zero w p = ok p
run_turns ends (suc n) w p = do p' ← run_turn ends w p; run_turns ends n w p'

abbrev listening : ℕ → Worker
listening t = record { has_listener = true; submitted = some t }

-- The pool when the task of the worker has run.
abbrev after_task : ℕ → ℕ → ThreadPool → ThreadPool
after_task w t p = record p {
  workers = set_worker w (new_worker true) p.workers;
  ran = p.ran ++ t ∷ [];
}
