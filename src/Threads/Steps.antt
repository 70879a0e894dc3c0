-- ===== src/Threads/Steps.antt =====
-- What the threads of game_client/game_client/Thread.cpp do one step after the other.
use easygametools.Base.{
  ℕ, ◌+◌, ◌%◌, ◌^◌, ◌<◌, ◌≡◌, ◌≢◌, ◌==◌, ==_iff, refl, ◌⊎◌, inl, inr, Bool, true, false, not,
  Option, none, some, [], arith, Bool-cases, Option-cases, is_some, ◌&&◌,
}
use easygametools.Base.Int.{ℤ}
use easygametools.Base.Table.{lookup, remove, nat_eq}
use easygametools.Base.Outcome.{
  ok, dangling, guard, or_error, Ensures, Ensures-ok, Ensures-weak, IfOk, IfOk-ok, IfOk-bind,
  IfOk-all,
}
use easygametools.Threads.{
  Thread, Threads, thread_at, put, new_thread, fire_thread_event, enter, start, Begun, run,
  leave_table, cleanup, static_thread_func, signal_runnable, signal, add_thread_event_listener,
}
use easygametools.Threads.Ids.{Sound, insert-Sound, enter-Sound, leave-Sound, keep-Sound}
use easygametools.Threads.Tables.{same_value, insert-AreUnique, remove-AreUnique}

-- The object that is found.
thread_at-inv : (p : ℕ) (s : Threads) → IfOk (thread_at p s) (λ t. lookup p s.objects ≡ some t)
unfolding thread_at
thread_at-inv p s = found (lookup p s.objects)
  where
    found : (o : Option Thread) → IfOk (or_error o dangling) (λ t. o ≡ some t)
    found none = tt
    found (some t) = refl

-- A thread that does not run is not in the table.
idle-absent :
    (p : ℕ) (t : Thread) (s : Threads)
    → Sound s
    → lookup p s.objects ≡ some t
    → t.thrid ≡ 0
    → (id : ℕ) → lookup id s.running_threads ≢ some p
idle-absent p t s ((entered, listed), unique) at_p idle id there =
    let (small, u, at_p', numbers) = listed id p there in
    numbers.1.0 (rw (← same_value (lookup p s.objects) t u at_p at_p') idle)

new-absent :
    (p : ℕ) (s : Threads)
    → Sound s
    → lookup p s.objects ≡ none
    → (id : ℕ) → lookup id s.running_threads ≢ some p
new-absent p s ((entered, listed), unique) at_p id there =
    let (small, u, at_p', numbers) = listed id p there in absurd cc

new_thread-Sound :
    (p : ℕ) (runnable : Option ℕ) (s : Threads)
    → lookup p s.objects ≡ none
    → Sound s
    → Sound (new_thread p runnable s)
unfolding new_thread put
new_thread-Sound p runnable s at_p h = (
  insert-Sound p _ s.objects s.running_threads s.engine_threadid_master refl (new-absent p s h at_p)
      h.0,
  h.1,
)

pub start-Sound :
    (begun : Begun) (p : ℕ) (t : Thread) (s : Threads)
    → lookup p s.objects ≡ some t
    → t.thrid ≡ 0
    → s.engine_threadid_master + 1 < 2 ^ 32
    → Sound s
    → IfOk (start begun p s) Sound
unfolding start thread_at enter put fire_thread_event
start-Sound begun p t s at_p idle small h =
    rw (at_p, below)
      (IfOk-bind (guard (is_some t.runnable) _) _ (λ u. Unit) Sound
        (IfOk-all _ (λ u. Unit) (λ u. tt))
        (λ u tt. elim (Bool-cases (begun.has_new_handle && not (begun.thread_id == 0))) [
          | inl e ↦ rw e (
            enter-Sound p _ s.objects s.running_threads s.engine_threadid_master
                (refl, (real_id begun.has_new_handle begun.thread_id e, refl))
                (idle-absent p t s h at_p idle) h.0,
            insert-AreUnique (s.engine_threadid_master + 1) p s.running_threads h.1,
          )
          | inr e ↦ rw e tt
        ]))
  where
    below : (s.engine_threadid_master + 1) % 2 ^ 32 ≡ s.engine_threadid_master + 1
    below = omega (arith, small)

    real_id : (b : Bool) (i : ℕ) → (b && not (i == 0)) ≡ true → i ≢ 0
    real_id b i e z = absurd (ground (arith, e, z, ==_iff i 0))

-- What a thread does that ends: it leaves the table, if it has run.
abbrev pub Left : ℕ → Threads → Threads → Type 0
Left p s s' =
    Sound s'
    × (((t : Thread) × (lookup p s.objects ≡ some t)
          × (t.thrid ≡ 0)
          × (s'.running_threads ≡ s.running_threads))
        ⊎ ((id : ℕ) × (lookup id s.running_threads ≡ some p)
            × (s'.running_threads ≡ remove id s.running_threads)))

cleanup-Left :
    (p : ℕ) (t : Thread) (s : Threads)
    → Sound s
    → lookup p s.objects ≡ some t
    → Ensures (cleanup p s) (Left p s)
unfolding cleanup thread_at leave_table put fire_thread_event
cleanup-Left p t s h at_p = elim (Bool-cases (t.thrid == 0)) [
  | inl e ↦ rw (at_p, e) (h, inl (t, at_p, (==_iff t.thrid 0).0 e, refl))
  | inr e ↦
      let (id, numbers, under) =
        h.0.0 p t at_p (λ z. absurd (ground (arith, e, z, ==_iff t.thrid 0))) in
      rw (at_p, e, numbers.0)
        (
          (
            leave-Sound p id _ s.objects s.running_threads s.engine_threadid_master refl under h.0,
            remove-AreUnique id s.running_threads h.1,
          ),
          inr (id, under, refl),
        )
]

pub static_thread_func-Left :
    (throws : Bool) (p : ℕ) (t : Thread) (s : Threads)
    → Sound s
    → lookup p s.objects ≡ some t
    → Ensures (static_thread_func throws p s) (Left p s)
unfolding static_thread_func run fire_thread_event
static_thread_func-Left true p t s h at_p = cleanup-Left p t (run true s) h at_p
static_thread_func-Left false p t s h at_p = cleanup-Left p t (run false s) h at_p

pub static_thread_func-IfOk :
    (throws : Bool) (p : ℕ) (s : Threads)
    → Sound s
    → IfOk (static_thread_func throws p s) (Left p s)
unfolding static_thread_func run fire_thread_event cleanup thread_at
static_thread_func-IfOk throws p s h = elim (Option-cases (lookup p s.objects)) [
  | inl e ↦ elim (Bool-cases throws) [ inl b ↦ rw (b, e) tt | inr b ↦ rw (b, e) tt ]
  | inr (t, e) ↦
      Ensures-weak (static_thread_func throws p s) _ (static_thread_func-Left throws p t s h e)
]

pub signal-Sound :
    (code : ℤ) (p : ℕ) (t : Thread) (s : Threads)
    → Sound s
    → lookup p s.objects ≡ some t
    → Ensures (signal code p s) (λ s'. Sound s' × (s'.running_threads ≡ s.running_threads))
unfolding signal thread_at signal_runnable put
signal-Sound code p t s h at_p = rw at_p (told t.runnable)
  where
    signalled : Sound (put p (record t { signal_flag = code }) s)
    signalled = (
      keep-Sound p t (record t { signal_flag = code }) s.objects s.running_threads
          s.engine_threadid_master at_p refl (λ id numbers. numbers) h.0,
      h.1,
    )

    told :
        (r : Option ℕ)
        → Sound (signal_runnable r code (put p (record t { signal_flag = code }) s))
          × ((signal_runnable r code (put p (record t { signal_flag = code }) s)).running_threads
              ≡ s.running_threads)
    told none = (signalled, refl)
    told (some r) = (signalled, refl)

-- The static members before `main`.
abbrev pub no_threads : Threads
no_threads = record {
  objects = [];
  running_threads = [];
  engine_threadid_master = 0;
  thread_event_listeners = [];
  runnable_flags = [];
  deliveries = [];
}

-- What calls that return lead to, where no thread is started while it runs, nor more than 2 ^ 32 - 1 are.
pub data Reachable : Threads → Type 0 where
  nothing_yet : Reachable no_threads
  made :
      (p : ℕ) (runnable : Option ℕ) (s : Threads)
      → Reachable s
      → lookup p s.objects ≡ none
      → Reachable (new_thread p runnable s)
  listened :
      (listener : ℕ) (s : Threads) → Reachable s → Reachable (add_thread_event_listener listener s)
  started :
      (begun : Begun) (p : ℕ) (t : Thread) (s s' : Threads)
      → Reachable s
      → lookup p s.objects ≡ some t
      → t.thrid ≡ 0
      → s.engine_threadid_master + 1 < 2 ^ 32
      → start begun p s ≡ ok s'
      → Reachable s'
  ended :
      (throws : Bool) (p : ℕ) (s s' : Threads)
      → Reachable s
      → static_thread_func throws p s ≡ ok s'
      → Reachable s'
  signalled :
      (code : ℤ) (p : ℕ) (t : Thread) (s s' : Threads)
      → Reachable s
      → lookup p s.objects ≡ some t
      → signal code p s ≡ ok s'
      → Reachable s'

pub Reachable-Sound : (s : Threads) → Reachable s → Sound s
unfolding add_thread_event_listener lookup
Reachable-Sound _ Reachable.nothing_yet =
    ((λ p t there running. absurd cc, λ id p there. absurd cc), tt)
Reachable-Sound _ (Reachable.made p runnable s r fresh) =
    new_thread-Sound p runnable s fresh (Reachable-Sound s r)
Reachable-Sound _ (Reachable.listened listener s r) = Reachable-Sound s r
Reachable-Sound _ (Reachable.started begun p t s after r at_p idle small e) =
    IfOk-ok _ Sound e (start-Sound begun p t s at_p idle small (Reachable-Sound s r))
Reachable-Sound _ (Reachable.ended throws p s after r e) =
    (IfOk-ok _ (Left p s) e (static_thread_func-IfOk throws p s (Reachable-Sound s r))).0
Reachable-Sound _ (Reachable.signalled code p t s after r at_p e) =
    (Ensures-ok _ (λ s'. Sound s' × (s'.running_threads ≡ s.running_threads)) e
      (signal-Sound code p t s (Reachable-Sound s r) at_p)).0
