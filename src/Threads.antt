-- ===== src/Threads.antt =====
-- The threads of game_client/game_client/Thread.h and Thread.cpp, with ThreadEvent.h and Runnable.h.
--
-- A number stands for the address of a `Thread`, of a `Runnable` or of a listener. A call is one step: what
-- threads do at the same time is an order of their steps. A thread that has been made runs `runnable` until
-- that returns or throws. The messages to the logger are left out, and so is the count of the handles.
pub mod Tables
pub mod Ids
pub mod Steps
pub mod Ending
pub mod Collecting
pub mod Current
pub mod Twice
pub mod Examples
use easygametools.Base.{
  ℕ, zero, suc, ◌+◌, ◌%◌, ◌^◌, Bool, true, false, not, ◌&&◌, ◌||◌, ◌==◌, Option, none, some, List,
  [], ◌∷◌, ◌++◌, if◌then◌else◌, is_some, length,
}
use Prim.Native.String.{String}
use easygametools.Base.Int.{ℤ, pos}
use easygametools.Base.Table.{Table, lookup, insert, remove, nat_eq}
use easygametools.Base.Outcome.{
  Result, ok, err, fatal, dangling, uninitialised, out_of_fuel, ◌>>=◌, ◌>>◌, guard, or_error,
}

pub data ThreadEventType : Type 0 where
  thr_started thr_stopped thr_destroyed thr_exception : ThreadEventType

-- `_thread`, if it is not NULL, `_thrid`, `engine_threadid`, which no constructor sets, `signalFlag` and
-- `runnable`.
pub record Thread : Type 0 where
  pub has_handle : Bool
  pub thrid : ℕ
  pub engine_threadid : Option ℕ
  pub signal_flag : ℤ
  pub runnable : Option ℕ

-- The threads that there are, the static members of `Thread`, the `signalFlag` of each `Runnable`, and the
-- calls of `threadEvent`, in order.
pub record Threads : Type 0 where
  pub objects : Table ℕ Thread
  pub running_threads : Table ℕ ℕ
  pub engine_threadid_master : ℕ
  pub thread_event_listeners : List ℕ
  pub runnable_flags : Table ℕ ℤ
  pub deliveries : List (ℕ × ThreadEventType)

unfoldable pub thread_at : ℕ → Threads → Result Thread
thread_at p s = or_error (lookup p s.objects) dangling

unfoldable pub put : ℕ → Thread → Threads → Threads
put p t s = record s { objects = insert p t s.objects }

-- `Thread::Thread`, at the address that `new` gives.
unfoldable pub new_thread : ℕ → Option ℕ → Threads → Threads
unfolding put
new_thread p runnable s =
    put p
      (record {
        has_handle = false;
        thrid = 0;
        engine_threadid = none;
        signal_flag = pos 0;
        runnable = runnable;
      })
      s

-- `Thread::addThreadEventListener`
unfoldable pub add_thread_event_listener : ℕ → Threads → Threads
add_thread_event_listener listener s = record s {
  thread_event_listeners = s.thread_event_listeners ++ listener ∷ [];
}

-- The loop of `fireThreadEvent`.
unfoldable pub deliver : ThreadEventType → List ℕ → List (ℕ × ThreadEventType)
deliver event [] = []
deliver event (listener ∷ listeners) = (listener, event) ∷ deliver event listeners

-- `Thread::fireThreadEvent`
unfoldable pub fire_thread_event : ThreadEventType → Threads → Threads
unfolding deliver
fire_thread_event event s = record s {
  deliveries = s.deliveries ++ deliver event s.thread_event_listeners;
}

-- What `_beginthreadex` gives: whether a handle, the number of the thread, and `errno`.
pub record Begun : Type 0 where
  pub has_new_handle : Bool
  pub thread_id : ℕ
  pub error : ℕ

-- `EAGAIN` is 11, `ENOMEM` 12 and `EACCES` 13.
unfoldable pub creation_error : ℕ → String
creation_error error =
    if error == 11
    then "Error creating thread pool: There are too many active threads"
    else if (error == 13) || (error == 12)
    then "Error creating thread pool: Insufficient resources"
    else "Error creating thread pool."

-- `Thread::start`, where the thread is entered under the next number, of 32 bits.
unfoldable pub enter : ℕ → Thread → ℕ → Threads → Threads
unfolding put
enter p t id s =
    let s' = put p (record t { engine_threadid = some id }) s in
    record s' { running_threads = insert id p s'.running_threads; engine_threadid_master = id }

-- `Thread::start`. Where it throws, what it leaves in the members is left out.
unfoldable pub start : Begun → ℕ → Threads → Result Threads
unfolding thread_at creation_error enter fire_thread_event
start begun p s = do
  t ← thread_at p s
  guard (is_some t.runnable) (fatal "No runnable specified")
  guard (begun.has_new_handle && not (begun.thread_id == 0)) (fatal (creation_error begun.error))
  ok (
      fire_thread_event ThreadEventType.thr_started (
        enter p (record t { has_handle = true; thrid = begun.thread_id })
          ((s.engine_threadid_master + 1) % 2 ^ 32) s))

-- `Thread::run`, by whether `runnable` throws.
unfoldable pub run : Bool → Threads → Threads
unfolding fire_thread_event
run throws s =
    fire_thread_event ThreadEventType.thr_stopped
      (if throws then fire_thread_event ThreadEventType.thr_exception s else s)

-- `Thread::cleanup`, where `_thrid` is set.
unfoldable pub leave_table : ℕ → Thread → Threads → Result Threads
unfolding put fire_thread_event
leave_table p t s = do
  id ← or_error t.engine_threadid uninitialised
  let s' =
      fire_thread_event ThreadEventType.thr_destroyed
        (record s { running_threads = remove id s.running_threads })
  ok (put p (record t { has_handle = false; thrid = 0; engine_threadid = some 0 }) s')

-- `Thread::cleanup`
unfoldable pub cleanup : ℕ → Threads → Result Threads
unfolding thread_at leave_table
cleanup p s = do t ← thread_at p s; if t.thrid == 0 then ok s else leave_table p t s

-- `_staticThreadFunc`
unfoldable pub static_thread_func : Bool → ℕ → Threads → Result Threads
unfolding run cleanup
static_thread_func throws p s = cleanup p (run throws s)

-- `Runnable::signal`, where there is a runnable. That of a `RunQueue` leaves its deliveryLock besides, which
-- is `deliver_task` of Pool/Delivery and no part of this state.
unfoldable pub signal_runnable : Option ℕ → ℤ → Threads → Threads
signal_runnable none code s = s
signal_runnable (some r) code s = record s { runnable_flags = insert r code s.runnable_flags }

-- `Thread::signal`
unfoldable pub signal : ℤ → ℕ → Threads → Result Threads
unfolding thread_at put signal_runnable
signal code p s = do
  t ← thread_at p s
  ok (signal_runnable t.runnable code (put p (record t { signal_flag = code }) s))

-- The loop of `getCurrentThread`.
unfoldable pub find_thread : ℕ → Table ℕ ℕ → Threads → Result (Option ℕ)
unfolding thread_at
find_thread current [] s = ok none
find_thread current ((id, p) ∷ rest) s = do
  t ← thread_at p s
  if t.thrid == current then ok (some p) else find_thread current rest s

-- `Thread::getCurrentThread`
unfoldable pub get_current_thread : ℕ → Threads → Result (Option ℕ)
unfolding find_thread
get_current_thread current s = find_thread current s.running_threads s

-- `Thread::waitfor`; `waits` is what the other threads do while it sleeps.
unfoldable pub waitfor : (ℕ → Threads → Result Threads) → ℕ → Threads → Result Threads
unfolding thread_at
waitfor waits p s = do
  t ← thread_at p s
  if not (t.thrid == 0) && t.has_handle then waits p s else ok s

-- The first loop of `CollectRemainingThreads`.
unfoldable pub signal_all : Table ℕ ℕ → Threads → Result Threads
unfolding signal
signal_all [] s = ok s
signal_all ((id, p) ∷ rest) s = do s' ← signal (pos 1) p s; signal_all rest s'

-- A turn of its second loop, by the table; `later` is what follows.
unfoldable pub wait_turn :
    (Threads → Result Threads)
    → (ℕ → Threads → Result Threads)
    → Table ℕ ℕ
    → Threads
    → Result Threads
unfolding waitfor
wait_turn later waits [] s = ok s
wait_turn later waits ((id, p) ∷ rest) s = waitfor waits p s >>= later

-- The second loop; the fuel counts the turns.
unfoldable pub wait_all : ℕ → (ℕ → Threads → Result Threads) → Threads → Result Threads
unfolding wait_turn
wait_all zero waits s = wait_turn (λ s'. err out_of_fuel) waits s.running_threads s
wait_all (suc n) waits s = wait_turn (wait_all n waits) waits s.running_threads s

-- The body of the `if`, with fuel for as many turns as there are entries.
unfoldable pub collect_threads :
    Table ℕ ℕ → (ℕ → Threads → Result Threads) → Threads → Result Threads
unfolding signal_all wait_all
collect_threads [] waits s = ok s
collect_threads (entry ∷ rest) waits s = do
  signalled ← signal_all (entry ∷ rest) s
  ended ← wait_all (suc (length rest)) waits signalled
  ok (record ended { running_threads = [] })

-- `Thread::CollectRemainingThreads`
unfoldable pub collect_remaining_threads : (ℕ → Threads → Result Threads) → Threads → Result Threads
unfolding collect_threads
collect_remaining_threads waits s = collect_threads s.running_threads waits s
