-- ===== src/Threads/Examples.antt =====
-- Runs of the threads.
use easygametools.Base.{ℕ, ◌≡◌, ◌≢◌, ◌==◌, ==_iff, refl, false, true, none, some, [], ◌∷◌, arith}
use easygametools.Base.Int.{pos}
use easygametools.Base.Table.{lookup, insert, nat_eq}
use easygametools.Base.Outcome.{err, out_of_fuel, ◌>>=◌, Ensures, Ensures-eq}
use easygametools.Threads.{
  Thread, Threads, Begun, ThreadEventType, thread_at, put, new_thread, deliver, fire_thread_event,
  enter, start, static_thread_func, get_current_thread, add_thread_event_listener,
  collect_remaining_threads, wait_all,
}
use easygametools.Threads.Steps.{Reachable, no_threads, Reachable-Sound}
use easygametools.Threads.Ids.{Sound}
use easygametools.Threads.Ending.{Ends, Waits}
use easygametools.Threads.Collecting.{AreEnded, Reachable-collect_remaining_threads}
use easygametools.Threads.Current.{IsCurrent, Reachable-get_current_thread}
use easygametools.Threads.Twice.{first_end-IsIdle, run_twice, run_twice-wait_all}

abbrev idle_thread : Thread
idle_thread = record {
  has_handle = false;
  thrid = 0;
  engine_threadid = none;
  signal_flag = pos 0;
  runnable = some 9;
}

abbrev one_idle : Threads
one_idle = record no_threads { objects = (5, idle_thread) ∷ []; thread_event_listeners = 7 ∷ [] }

abbrev made_as : ℕ → Begun
made_as id = record { has_new_handle = true; thread_id = id; error = 0 }

abbrev pub one_running : Threads
one_running = record one_idle {
  objects =
      (5, record idle_thread { has_handle = true; thrid = 420; engine_threadid = some 1 }) ∷ [];
  running_threads = (1, 5) ∷ [];
  engine_threadid_master = 1;
  deliveries = (7, ThreadEventType.thr_started) ∷ [];
}

pub one_running-Reachable : Reachable one_running
unfolding new_thread put lookup insert add_thread_event_listener start thread_at enter
    fire_thread_event deliver
one_running-Reachable =
    Reachable.started (made_as 420) 5 idle_thread one_idle one_running
      (Reachable.made 5 (some 9) (record no_threads { thread_event_listeners = 7 ∷ [] })
        (Reachable.listened 7 no_threads Reachable.nothing_yet) refl)
      refl refl (omega arith) refl

pub static_thread_func-Waits : Waits (static_thread_func false)
static_thread_func-Waits p t s h at_p runs =
    let (id, numbers, under) = h.0.0 p t at_p runs in
    let (s', done, (table, idle)) =
      Ensures-eq (static_thread_func false p s) _
        (first_end-IsIdle p id t s at_p (not_zero t.thrid runs) numbers.0) in
    rw done (Ends.one_end false p s s s' (Ends.no_end s) done, idle)
  where
    not_zero : (i : ℕ) → i ≢ 0 → (i == 0) ≡ false
    not_zero i ne = ground (arith, ne, ==_iff i 0)

Reachable-Sound_example : Sound one_running
Reachable-Sound_example = Reachable-Sound one_running one_running-Reachable

Reachable-get_current_thread_example :
    Ensures (get_current_thread 420 one_running) (IsCurrent 420 one_running)
Reachable-get_current_thread_example =
    Reachable-get_current_thread 420 one_running one_running-Reachable

Reachable-collect_remaining_threads_example :
    Ensures
      (collect_remaining_threads (static_thread_func false) one_running)
      (AreEnded one_running.running_threads)
Reachable-collect_remaining_threads_example =
    Reachable-collect_remaining_threads (static_thread_func false) one_running
      static_thread_func-Waits one_running-Reachable

run_twice-wait_all_example :
    (run_twice (made_as 420) (made_as 421) 5 one_idle >>= wait_all 3 (static_thread_func false))
    ≡ err out_of_fuel
unfolding lookup
run_twice-wait_all_example =
    run_twice-wait_all (made_as 420) (made_as 421) 5 9 idle_thread one_idle (refl, refl)
      (refl, refl) refl (omega arith) refl refl 3 (static_thread_func false)
