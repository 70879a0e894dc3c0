-- ===== src/Threads/Collecting.antt =====
-- `Thread::CollectRemainingThreads` of game_client/game_client/Thread.cpp: whom it signals, and what it
-- leaves.
use easygametools.Base.{
  ℕ, suc, ◌≡◌, ◌≢◌, ◌==◌, ==_iff, refl, ap, sym, ◌∙◌, inl, inr, Bool, true, false, Option, false,
  none, some, [], ◌∷◌, arith, length, Bool-cases, Option-cases, All-weaken, All,
}
use easygametools.Base.Int.{pos}
use easygametools.Base.Table.{Table, lookup, insert, nat_eq, lookup-insert_self}
use easygametools.Base.Outcome.{
  Result, ok, Ensures, Ensures-eq, Ensures-ok, Ensures-bind, Ensures-weaken, IfOk, IfOk-ok, IfOk-if,
}
use easygametools.Threads.{
  Thread, Threads, thread_at, put, signal_runnable, run, fire_thread_event, cleanup, leave_table,
  static_thread_func, signal, signal_all, wait_all, collect_threads, collect_remaining_threads,
}
use easygametools.Threads.Ids.{Sound}
use easygametools.Threads.Tables.{insert_other, same_value, AreUnique-All}
use easygametools.Threads.Steps.{signal-Sound, Reachable, Reachable-Sound}
use easygametools.Threads.Ending.{Ends, Waits, IsDone, wait_all-IsDone}

-- The thread has been told to end.
abbrev pub Told : ℕ → Threads → Type 0
Told p s = (t : Thread) × (lookup p s.objects ≡ some t) × (t.signal_flag ≡ pos 1)

put-Told :
    (p q : ℕ) (t : Thread) (s : Threads)
    → (p ≡ q → t.signal_flag ≡ pos 1)
    → ((p ≢ q) → Told q s)
    → Told q (put p t s)
unfolding put
put-Told p q t s same other = elim (Bool-cases (p == q)) [
  | inl e ↦
      let e' = (==_iff p q).0 e in
      (
        t,
        ap (λ r. lookup r (insert p t s.objects)) (sym e') ∙ lookup-insert_self p t s.objects,
        same e',
      )
  | inr e ↦
      let ne : p ≢ q = λ e'. absurd (ground (arith, e, e', ==_iff p q)) in
      let (u, at_q, told) = other ne in (u, insert_other p q t s.objects ne ∙ at_q, told)
]

signal-Told :
    (p q : ℕ) (t : Thread) (s : Threads)
    → lookup p s.objects ≡ some t
    → (p ≢ q → Told q s)
    → Ensures (signal (pos 1) p s) (Told q)
unfolding signal thread_at signal_runnable
signal-Told p q t s at_p other = rw at_p (flags t.runnable)
  where
    told : Told q (put p (record t { signal_flag = pos 1 }) s)
    told = put-Told p q (record t { signal_flag = pos 1 }) s (λ e. refl) other

    flags :
        (r : Option ℕ)
        → Told q (signal_runnable r (pos 1) (put p (record t { signal_flag = pos 1 }) s))
    flags none = told
    flags (some r) = told

leave_table-Told :
    (p q : ℕ) (t : Thread) (s : Threads)
    → lookup p s.objects ≡ some t
    → Told q s
    → IfOk (leave_table p t s) (Told q)
unfolding leave_table fire_thread_event put
leave_table-Told p q t s at_p told = elim (Option-cases t.engine_threadid) [
  | inl e ↦ rw e tt
  | inr (id, e) ↦ rw e (
      put-Told p q (record t { has_handle = false; thrid = 0; engine_threadid = some 0 }) s
        (λ same. flag same told) (λ ne. told))
]
  where
    flag : p ≡ q → Told q s → t.signal_flag ≡ pos 1
    flag same (u, at_q, set) =
        ap (λ v. v.signal_flag)
          (same_value (lookup q s.objects) t u (ap (λ r. lookup r s.objects) (sym same) ∙ at_p)
            at_q)
        ∙ set

cleanup-Told : (p q : ℕ) (s : Threads) → Told q s → IfOk (cleanup p s) (Told q)
unfolding cleanup thread_at
cleanup-Told p q s told = elim (Option-cases (lookup p s.objects)) [
  | inl e ↦ rw e tt
  | inr (t, e) ↦ rw e (
      IfOk-if (t.thrid == 0) (ok s) (leave_table p t s) (Told q) told
        (leave_table-Told p q t s e told))
]

static_thread_func-Told :
    (throws : Bool) (p q : ℕ) (s : Threads)
    → Told q s
    → IfOk (static_thread_func throws p s) (Told q)
unfolding static_thread_func run fire_thread_event
static_thread_func-Told true p q s told = cleanup-Told p q (run true s) told
static_thread_func-Told false p q s told = cleanup-Told p q (run false s) told

Ends-Told : (q : ℕ) (s s' : Threads) → Told q s → Ends s s' → Told q s'
Ends-Told q _ _ told (Ends.no_end s) = told
Ends-Told q _ _ told (Ends.one_end throws p s s' after ends e) =
    IfOk-ok _ (Told q) e (static_thread_func-Told throws p q s' (Ends-Told q s s' told ends))

-- Every thread of the list is told, and whoever was told before stays so.
signal_all-Told :
    (t running : Table ℕ ℕ) (s : Threads)
    → All (λ (id, p). lookup id running ≡ some p) t
    → s.running_threads ≡ running
    → Sound s
    → Ensures (signal_all t s) (λ s'.
      Sound s'
      × (s'.running_threads ≡ running)
      × All (λ (id, p). Told p s') t
      × ((q : ℕ) → Told q s → Told q s'))
unfolding signal_all
signal_all-Told [] running s all same h = (h, same, tt, λ q told. told)
signal_all-Told ((id, p) ∷ rest) running s all same h =
    let (small, t, at_p, numbers) = h.0.1 id p (ap (lookup id) same ∙ all.0) in
    let (s', done, (sound, kept)) =
      Ensures-eq (signal (pos 1) p s) _ (signal-Sound (pos 1) p t s h at_p) in
    rw done (
      Ensures-weaken (signal_all rest s') _ _
        (signal_all-Told rest running s' all.1 (kept ∙ same) sound)
        (λ s'' (sound', kept', told, stays). (
          sound',
          kept',
          (stays p (first s' done), told),
          λ q told_q. stays q (later q s' done told_q),
        )))
  where
    later : (q : ℕ) (s' : Threads) → signal (pos 1) p s ≡ ok s' → Told q s → Told q s'
    later q s' done told_q =
        let (small, t, at_p, numbers) = h.0.1 id p (ap (lookup id) same ∙ all.0) in
        Ensures-ok _ (Told q) done (signal-Told p q t s at_p (λ ne. told_q))

    first : (s' : Threads) → signal (pos 1) p s ≡ ok s' → Told p s'
    first s' done =
        let (small, t, at_p, numbers) = h.0.1 id p (ap (lookup id) same ∙ all.0) in
        Ensures-ok _ (Told p) done (signal-Told p p t s at_p (λ ne. absurd (ne refl)))

-- No thread runs.
abbrev pub AreOver : Threads → Type 0
AreOver s =
    (s.running_threads ≡ []) × ((p : ℕ) (t : Thread) → lookup p s.objects ≡ some t → t.thrid ≡ 0)

empty-AreOver : (s : Threads) → Sound s → s.running_threads ≡ [] → AreOver s
unfolding lookup
empty-AreOver s h e = (
  e,
  λ p t at_p. elim (Bool-cases (t.thrid == 0)) [
    | inl idle ↦ (==_iff t.thrid 0).0 idle
    | inr runs ↦
        let (id, numbers, under) =
          h.0.0 p t at_p (λ z. absurd (ground (arith, runs, z, ==_iff t.thrid 0))) in
        absurd (nothing id p (rw e at under))
  ],
)
  where
    nothing : (id p : ℕ) → lookup id [] ≢ some p
    nothing id p e = absurd cc

-- No thread runs, and those of the list have been told to end.
abbrev pub AreEnded : Table ℕ ℕ → Threads → Type 0
AreEnded entries s = AreOver s × All (λ (id, p). Told p s) entries

collect_threads-AreEnded :
    (t : Table ℕ ℕ) (waits : ℕ → Threads → Result Threads) (s : Threads)
    → Waits waits
    → Sound s
    → s.running_threads ≡ t
    → Ensures (collect_threads t waits s) (AreEnded t)
unfolding collect_threads
collect_threads-AreEnded [] waits s w h e = (empty-AreOver s h e, tt)
collect_threads-AreEnded (entry ∷ t) waits s w h e =
    Ensures-bind (signal_all (entry ∷ t) s) _ _ (AreEnded (entry ∷ t))
      (signal_all-Told (entry ∷ t) (entry ∷ t) s (AreUnique-All (entry ∷ t) (rw e at h.1)) e h)
      (λ s' (sound, same, told, stays).
        Ensures-bind (wait_all (suc (length t)) waits s') _ (IsDone s') (AreEnded (entry ∷ t))
          (wait_all-IsDone (suc (length t)) waits s' w sound (rw same (omega arith)))
          (λ s'' (sound', empty, ends). (
            (refl, (empty-AreOver s'' sound' empty).1),
            All-weaken (entry ∷ t) (λ (id, p) told_p. Ends-Told p s' s'' told_p ends) told,
          )))

-- From every state that calls of the threads that return lead to, where no thread is started while it runs
-- and fewer than 2^32 are ever started, CollectRemainingThreads ends, within one wait for each thread that
-- runs: the table of the running threads is empty, no thread runs, and each that ran has the signal 1. It
-- relies on it that the thread that it waits for ends, and that no thread is started meanwhile.
pub Reachable-collect_remaining_threads :
    (waits : ℕ → Threads → Result Threads) (s : Threads)
    → Waits waits
    → Reachable s
    → Ensures (collect_remaining_threads waits s) (AreEnded s.running_threads)
unfolding collect_remaining_threads
Reachable-collect_remaining_threads waits s w r =
    collect_threads-AreEnded s.running_threads waits s w (Reachable-Sound s r) refl
