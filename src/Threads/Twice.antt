-- ===== src/Threads/Twice.antt =====
-- A `Thread` of game_client/game_client/Thread.cpp that is started a second time while it runs.
use easygametools.Base.{
  ℕ, zero, suc, ◌+◌, ◌%◌, ◌^◌, ◌<◌, ◌≡◌, ◌==◌, ==_iff, refl, ap, ◌∙◌, true, false, some, [], ◌∷◌,
  arith, ==_refl,
}
use easygametools.Base.Table.{lookup, insert, remove, nat_eq, lookup-insert_self}
use easygametools.Base.Outcome.{
  Result, err, out_of_fuel, ◌>>=◌, Ensures, Ensures-bind, Ensures-weaken, Ensures-eq,
}
use easygametools.Threads.{
  Thread, Threads, Begun, thread_at, put, fire_thread_event, enter, start, run, leave_table,
  cleanup, static_thread_func, waitfor, wait_turn, wait_all,
}

-- The thread has left, and its first number is still in the table.
abbrev IsLost : ℕ → Threads → Type 0
IsLost p s =
    (id : ℕ) × (s.running_threads ≡ (id, p) ∷ [])
    × ((t : Thread) × (lookup p s.objects ≡ some t) × (t.thrid ≡ 0))

wait_turn-IsLost :
    (p : ℕ) (later : Threads → Result Threads) (waits : ℕ → Threads → Result Threads) (s : Threads)
    → IsLost p s
    → wait_turn later waits s.running_threads s ≡ later s
unfolding wait_turn waitfor thread_at
wait_turn-IsLost p later waits s (id, only, (t, at_p, idle)) =
    ap (λ r. wait_turn later waits r s) only ∙ rw (at_p, idle) refl

wait_all-IsLost :
    (fuel p : ℕ) (waits : ℕ → Threads → Result Threads) (s : Threads)
    → IsLost p s
    → wait_all fuel waits s ≡ err out_of_fuel
unfolding wait_all
wait_all-IsLost zero p waits s h = wait_turn-IsLost p _ waits s h
wait_all-IsLost (suc n) p waits s h = wait_turn-IsLost p _ waits s h ∙ wait_all-IsLost n p waits s h

-- The system makes the thread.
abbrev pub IsMade : Begun → Type 0
IsMade b = (b.has_new_handle ≡ true) × ((b.thread_id == 0) ≡ false)

-- A thread that runs under a number.
abbrev Has : ℕ → ℕ → ℕ → ℕ → Threads → Type 0
Has p r id thrid s =
    (t : Thread) × (lookup p s.objects ≡ some t)
    × ((t.runnable ≡ some r) × ((t.engine_threadid ≡ some id) × (t.thrid ≡ thrid)))

start-Has :
    (b : Begun) (p r : ℕ) (t : Thread) (s : Threads)
    → IsMade b
    → s.engine_threadid_master + 1 < 2 ^ 32
    → lookup p s.objects ≡ some t
    → t.runnable ≡ some r
    → Ensures (start b p s) (λ s'.
      (s'.running_threads ≡ insert (s.engine_threadid_master + 1) p s.running_threads)
      × ((s'.engine_threadid_master ≡ s.engine_threadid_master + 1)
          × Has p r (s.engine_threadid_master + 1) b.thread_id s'))
unfolding start thread_at enter put fire_thread_event
start-Has b p r t s made small at_p runs =
    rw (at_p, runs, made.0, made.1, below)
      (refl, (refl, (_, lookup-insert_self p _ s.objects, (runs_as, (refl, refl)))))
  where
    below : (s.engine_threadid_master + 1) % 2 ^ 32 ≡ s.engine_threadid_master + 1
    below = omega (arith, small)

    runs_as : some r ≡ some r
    runs_as = refl

-- No thread is waited for.
abbrev pub IsIdle : ℕ → Threads → Type 0
IsIdle p s = (t : Thread) × (lookup p s.objects ≡ some t) × (t.thrid ≡ 0)

pub first_end-IsIdle :
    (p id : ℕ) (t : Thread) (s : Threads)
    → lookup p s.objects ≡ some t
    → (t.thrid == 0) ≡ false
    → t.engine_threadid ≡ some id
    → Ensures
        (static_thread_func false p s)
        (λ s'. (s'.running_threads ≡ remove id s.running_threads) × IsIdle p s')
unfolding static_thread_func run cleanup thread_at leave_table put fire_thread_event
first_end-IsIdle p id t s at_p runs number =
    rw (at_p, runs, number) (refl, (_, lookup-insert_self p _ s.objects, refl))

second_end-IsIdle :
    (p : ℕ) (s : Threads)
    → IsIdle p s
    → Ensures
        (static_thread_func false p s)
        (λ s'. (s'.running_threads ≡ s.running_threads) × IsIdle p s')
unfolding static_thread_func run cleanup thread_at fire_thread_event
second_end-IsIdle p s (t, at_p, idle) = rw (at_p, idle) (refl, (t, at_p, idle))

-- One thread that two threads of the system run, and that both have left.
abbrev pub run_twice : Begun → Begun → ℕ → Threads → Result Threads
run_twice b b' p s =
    start b p s >>= start b' p >>= static_thread_func false p >>= static_thread_func false p

two_numbers : (n p : ℕ) → remove (n + 1) (insert (n + 1) p (insert n p [])) ≡ (n, p) ∷ []
unfolding insert remove
two_numbers n p = rw apart (rw (apart, ==_refl (n + 1)) refl)
  where
    apart : (n == n + 1) ≡ false
    apart = ground (arith, ==_iff n (n + 1))

run_twice-IsLost :
    (b b' : Begun) (p r : ℕ) (t : Thread) (s : Threads)
    → IsMade b
    → IsMade b'
    → s.running_threads ≡ []
    → s.engine_threadid_master + 2 < 2 ^ 32
    → lookup p s.objects ≡ some t
    → t.runnable ≡ some r
    → Ensures (run_twice b b' p s) (IsLost p)
run_twice-IsLost b b' p r t s made made' alone small at_p runs =
    let n = s.engine_threadid_master + 1 in
    Ensures-bind (start b p s >>= start b' p >>= static_thread_func false p) _
      (λ s'. (s'.running_threads ≡ (n, p) ∷ []) × IsIdle p s') (IsLost p)
      (Ensures-bind (start b p s >>= start b' p) _
        (λ s'.
          (s'.running_threads ≡ insert (n + 1) p (insert n p [])) × Has p r (n + 1) b'.thread_id s')
        _
        (Ensures-bind (start b p s) _
          (λ s'.
            (s'.running_threads ≡ insert n p s.running_threads)
            × ((s'.engine_threadid_master ≡ n) × Has p r n b.thread_id s'))
          _ (start-Has b p r t s made (omega (arith, small)) at_p runs)
          (λ s' (table, (master, (u, at_p', (runnable, rest)))).
            Ensures-weaken (start b' p s') _ _
              (start-Has b' p r u s' made' (rw master (omega (arith, small))) at_p' runnable)
              (λ s'' (table', (master', has)). (
                table'
                    ∙ ap (λ m. insert (m + 1) p s'.running_threads) master
                    ∙ ap (insert (n + 1) p) (table ∙ ap (insert n p) alone),
                rw master at has,
              ))))
        (λ s' (table, (u, at_p', (runnable, (number, thrid)))).
          Ensures-weaken (static_thread_func false p s') _ _
            (first_end-IsIdle p (n + 1) u s' at_p' (rw thrid made'.1) number)
            (λ s'' (table', idle). (table' ∙ ap (remove (n + 1)) table ∙ two_numbers n p, idle))))
      (λ s' (table, idle).
        Ensures-weaken (static_thread_func false p s') _ _ (second_end-IsIdle p s' idle)
          (λ s'' (table', idle'). (n, table' ∙ table, idle')))

-- A thread that is started twice before it ends leaves its first number in the table for ever, with no
-- thread to it: where no other thread runs, the loop of CollectRemainingThreads that follows never
-- ends, whatever fuel it has.
pub run_twice-wait_all :
    (b b' : Begun) (p r : ℕ) (t : Thread) (s : Threads)
    → IsMade b
    → IsMade b'
    → s.running_threads ≡ []
    → s.engine_threadid_master + 2 < 2 ^ 32
    → lookup p s.objects ≡ some t
    → t.runnable ≡ some r
    → (fuel : ℕ) (waits : ℕ → Threads → Result Threads)
    → (run_twice b b' p s >>= wait_all fuel waits) ≡ err out_of_fuel
run_twice-wait_all b b' p r t s made made' alone small at_p runs fuel waits =
    let (s', done, gone) =
      Ensures-eq (run_twice b b' p s) (IsLost p)
        (run_twice-IsLost b b' p r t s made made' alone small at_p runs) in
    ap (λ m. m >>= wait_all fuel waits) done ∙ wait_all-IsLost fuel p waits s' gone
