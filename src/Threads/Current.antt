-- ===== src/Threads/Current.antt =====
-- `Thread::getCurrentThread` of game_client/game_client/Thread.cpp: whose number the system's is.
use easygametools.Base.{
  ℕ, ◌≡◌, ◌≢◌, ◌==◌, ==_iff, refl, ap, inl, inr, false, Option, none, some, [], ◌∷◌, arith,
  Bool-cases, All,
}
use easygametools.Base.Table.{Table, lookup, nat_eq}
use easygametools.Base.Outcome.{Ensures, Ensures-weaken}
use easygametools.Threads.{Thread, Threads, thread_at, find_thread, get_current_thread}
use easygametools.Threads.Ids.{Sound}
use easygametools.Threads.Tables.{same_value, AreUnique-All}
use easygametools.Threads.Steps.{Reachable, Reachable-Sound}

-- A thread that runs under the system's number.
abbrev pub RunsAs : ℕ → Threads → ℕ → Type 0
RunsAs current s p =
    (t : Thread) × (lookup p s.objects ≡ some t) × (t.thrid ≡ current) × (t.thrid ≢ 0)

abbrev IsFound : ℕ → Threads → Table ℕ ℕ → Option ℕ → Type 0
IsFound current s entries (some p) = RunsAs current s p
IsFound current s entries none =
    All (λ (id, p). (t : Thread) → lookup p s.objects ≡ some t → t.thrid ≢ current) entries

find_thread-IsFound :
    (current : ℕ) (entries : Table ℕ ℕ) (s : Threads)
    → Sound s
    → All (λ (id, p). lookup id s.running_threads ≡ some p) entries
    → Ensures (find_thread current entries s) (IsFound current s entries)
unfolding find_thread thread_at
find_thread-IsFound current [] s h all = tt
find_thread-IsFound current ((id, p) ∷ rest) s h all =
    let (small, t, at_p, numbers) = h.0.1 id p all.0 in
    elim (Bool-cases (t.thrid == current)) [
      | inl e ↦ rw (at_p, e) (t, at_p, (==_iff t.thrid current).0 e, numbers.1.0)
      | inr e ↦
          rw (at_p, e)
            (Ensures-weaken (find_thread current rest s) (IsFound current s rest)
              (IsFound current s ((id, p) ∷ rest)) (find_thread-IsFound current rest s h all.1)
              (kept t at_p e))
    ]
  where
    kept :
        (t : Thread)
        → lookup p s.objects ≡ some t
        → (t.thrid == current) ≡ false
        → (o : Option ℕ) → IsFound current s rest o
        → IsFound current s ((id, p) ∷ rest) o
    kept t at_p e (some q) found = found
    kept t at_p e none found = (
      λ u at_p' same. absurd (
          ground (
            arith,
            e,
            same,
            ap (λ v. v.thrid) (same_value (lookup p s.objects) t u at_p at_p'),
            ==_iff t.thrid current,
          )),
      found,
    )

lookup-All :
    (P : ℕ × ℕ → Type 0) (entries : Table ℕ ℕ) (id p : ℕ)
    → All P entries
    → lookup id entries ≡ some p
    → P (id, p)
unfolding lookup
lookup-All P [] id p all h = absurd cc
lookup-All P ((j, q) ∷ rest) id p all h = elim (Bool-cases (j == id)) [
  | inl e ↦
      let same = same_value (some q) q p refl (rw e at h) in rw (← (==_iff j id).0 e, ← same) all.0
  | inr e ↦ lookup-All P rest id p all.1 (rw e at h)
]

-- The one that is found, or nobody runs under the number.
abbrev pub IsCurrent : ℕ → Threads → Option ℕ → Type 0
IsCurrent current s (some p) = RunsAs current s p
IsCurrent current s none = (p : ℕ) → ¬ RunsAs current s p

-- In every state that calls of the threads that return lead to, where no thread is started while it runs and fewer
-- than 2^32 are ever started, getCurrentThread returns a thread that runs under the number of the system,
-- or null, and then no thread runs under that number.
pub Reachable-get_current_thread :
    (current : ℕ) (s : Threads)
    → Reachable s
    → Ensures (get_current_thread current s) (IsCurrent current s)
unfolding get_current_thread
Reachable-get_current_thread current s r =
    Ensures-weaken (find_thread current s.running_threads s) (IsFound current s s.running_threads)
      (IsCurrent current s)
      (find_thread-IsFound current s.running_threads s h (AreUnique-All s.running_threads h.1))
      whole
  where
    h : Sound s
    h = Reachable-Sound s r

    whole : (o : Option ℕ) → IsFound current s s.running_threads o → IsCurrent current s o
    whole (some p) found = found
    whole none found = λ p (t, at_p, same, runs).
        let (id, numbers, under) = h.0.0 p t at_p runs in
        lookup-All (λ (id, p). (t : Thread) → lookup p s.objects ≡ some t → t.thrid ≢ current)
          s.running_threads id p found under t at_p same
