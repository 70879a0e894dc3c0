-- ===== src/Pool.antt =====
-- The thread pool of game_client/game_client/ThreadPool.cpp and RunQueue.h.
--
-- A number stands for a task, and a worker's place in `workers` for its thread and its `RunQueue`. One
-- call at a time: what the locks do is in Pool/Sections. `ran` has the tasks that have run, in order.
pub mod Accounts
pub mod Places
pub mod Refinement
pub mod Drain
pub mod Growth
pub mod Sections
pub mod Locks
pub mod Delivery
pub mod Opening
pub mod Examples
use easygametools.Base.{
  ℕ, zero, suc, Bool, true, false, Option, none, some, List, [], ◌∷◌, ◌++◌, if◌then◌else◌, not,
  get_elem?, length,
}
use easygametools.Base.Int.{ℤ, pos_part, ltb_ℤ}
use easygametools.Base.Outcome.{
  Result, ok, err, null_pointer, uncaught, fatal, task_rejected, ◌>>=◌, ◌>>◌, or_error,
}

-- `RunQueue`: whether it has a `queueListener`, and its `submittedTask`.
pub record Worker : Type 0 where
  pub has_listener : Bool
  pub submitted : Option ℕ

pub record ThreadPool : Type 0 where
  pub task_queue : List ℕ
  pub thread_pool : List ℕ
  pub workers : List Worker
  pub current_size : ℤ
  pub max_size : ℤ
  pub started : Bool
  pub is_closing : Bool
  pub ran : List ℕ
  -- How often `taskQueueSem` was left by a thread that was not in it.
  pub stray_leaves : ℕ

abbrev pub set_worker : ℕ → Worker → List Worker → List Worker
set_worker w x [] = []
set_worker zero x (y ∷ ys) = x ∷ ys
set_worker (suc w) x (y ∷ ys) = y ∷ set_worker w x ys

-- `new RunQueue()`, with the pool as its listener or without.
abbrev pub new_worker : Bool → Worker
new_worker listens = record { has_listener = listens; submitted = none }

-- The loop over `i < minSize`: the workers, and their numbers from `i`.
unfoldable pub first_workers : ℕ → List Worker
first_workers zero = []
first_workers (suc n) = new_worker true ∷ first_workers n

unfoldable pub first_threads : ℕ → ℕ → List ℕ
first_threads i zero = []
first_threads i (suc n) = i ∷ first_threads (suc i) n

-- `ThreadPool::ThreadPool`
unfoldable pub new_thread_pool : ℤ → ℤ → ThreadPool
unfolding first_workers first_threads
new_thread_pool min_size max_size = record {
  task_queue = [];
  thread_pool = first_threads 0 (pos_part min_size);
  workers = first_workers (pos_part min_size);
  current_size = min_size;
  max_size = max_size;
  started = false;
  is_closing = false;
  ran = [];
  stray_leaves = 0;
}

-- `threadPool.removeAt(0)`, `t->start()` and `threadPool.append(t)`, as often as the pool is long; `begins`
-- is what `Thread::start` gives for each worker.
unfoldable pub rotate : (ℕ → Result (Unit {0})) → ℕ → List ℕ → Result (List ℕ)
rotate begins zero ws = ok ws
rotate begins (suc n) [] = ok []
rotate begins (suc n) (w ∷ ws) = do begins w; rotate begins n (ws ++ w ∷ [])

-- `ThreadPool::start`. Where it throws, `threadPoolSem` is not left; what a throw leaves is left out here
-- and below.
unfoldable pub start : (ℕ → Result (Unit {0})) → ThreadPool → Result ThreadPool
unfolding rotate
start begins p = do
  ws ← rotate begins (length p.thread_pool) p.thread_pool
  ok (record p { thread_pool = ws; started = true })

-- `RunQueue::offer`. The listener is used without a test: where there is none, `->` throws.
unfoldable pub offer_to : ℕ → ℕ → Bool → Option ℕ → ThreadPool → Result ThreadPool
offer_to w task true (some t) p = err (task_rejected "Can't run task in queue")
offer_to w task false (some t) p = err (fatal "NullPointerException")
offer_to w task listens none p = ok (record p {
  workers = set_worker w (record { has_listener = listens; submitted = some task }) p.workers;
})

unfoldable pub offer : ℕ → ℕ → ThreadPool → Result ThreadPool
unfolding offer_to
offer w task p = do
  x ← or_error (get_elem? p.workers w) null_pointer
  offer_to w task x.has_listener x.submitted p

-- A new worker joins the pool. It gets no listener.
unfoldable pub grown : ThreadPool → ThreadPool
grown p = record p {
  workers = p.workers ++ new_worker false ∷ [];
  thread_pool = p.thread_pool ++ length p.workers ∷ [];
}

-- `threadRunner->start()` follows; `begun` is what `Thread::start` gives.
unfoldable pub grow : Result (Unit {0}) → ThreadPool → Result ThreadPool
unfolding grown
grow begun p = do begun; ok (grown p)

-- The first free worker takes the task.
unfoldable pub dispatch_to : List ℕ → ℕ → ThreadPool → Result ThreadPool
unfolding offer
dispatch_to [] task p = err (fatal "Weird... no threads available")
dispatch_to (w ∷ ws) task p = offer w task (record p { thread_pool = ws })

-- `ThreadPool::execute`, where no worker is free and where one is.
unfoldable pub execute_on : Result (Unit {0}) → List ℕ → ℕ → ThreadPool → Result ThreadPool
unfolding dispatch_to grow
execute_on begun (w ∷ ws) task p = dispatch_to (w ∷ ws) task p
execute_on begun [] task p =
    if ltb_ℤ p.current_size p.max_size
    then (do p' ← grow begun p; dispatch_to p'.thread_pool task p')
    else ok (record p { task_queue = p.task_queue ++ task ∷ [] })

-- `ThreadPool::execute`
unfoldable pub execute : Result (Unit {0}) → ℕ → ThreadPool → Result ThreadPool
unfolding execute_on
execute begun task p =
    if not p.started
    then err (fatal "Thread pool is not started yet.")
    else if p.is_closing
    then ok p
    else execute_on begun p.thread_pool task p

-- `RunQueueEventType`
pub data RunQueueEventType : Type 0 where
  evt_submitted evt_queued evt_completed evt_rejected : RunQueueEventType

-- `ThreadPool::runQueueEvent`, where the worker is done: the next task that waits, or none. With a task
-- the worker leaves `taskQueueSem` before `offer` and once more at the end, when it is not in it.
unfoldable pub complete : List ℕ → ℕ → ThreadPool → Result ThreadPool
unfolding offer
complete [] w p = ok (record p { thread_pool = p.thread_pool ++ w ∷ [] })
complete (task ∷ rest) w p = do
  p' ← offer w task (record p { task_queue = rest })
  ok (record p' { stray_leaves = suc p'.stray_leaves })

unfoldable pub run_queue_event : RunQueueEventType → ℕ → ThreadPool → Result ThreadPool
unfolding complete
run_queue_event RunQueueEventType.evt_completed w p = complete p.task_queue w p
run_queue_event _ w p = ok p

-- How a task ends: it returns, or throws a `FatalException*`, or something else.
pub data TaskEnd : Type 0 where
  returns throws_fatal throws_other : TaskEnd

-- `catch (FatalException*)`
abbrev pub ends_well : TaskEnd → Bool
ends_well TaskEnd.returns = true
ends_well TaskEnd.throws_fatal = true
ends_well TaskEnd.throws_other = false

-- A turn of `RunQueue::run`: the task that was submitted runs. `ends` tells how each task ends.
unfoldable pub run_task : (ℕ → TaskEnd) → ℕ → Bool → Option ℕ → ThreadPool → Result ThreadPool
unfolding run_queue_event
run_task ends w listens none p = ok p
run_task ends w listens (some task) p =
    let done = record p {
      workers = set_worker w (new_worker listens) p.workers;
      ran = p.ran ++ task ∷ [];
    } in
    if not (ends_well (ends task))
    then err uncaught
    else if listens
    then run_queue_event RunQueueEventType.evt_completed w done
    else ok done

unfoldable pub run_turn : (ℕ → TaskEnd) → ℕ → ThreadPool → Result ThreadPool
unfolding run_task
run_turn ends w p = do
  x ← or_error (get_elem? p.workers w) null_pointer
  run_task ends w x.has_listener x.submitted p
