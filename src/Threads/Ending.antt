-- ===== src/Threads/Ending.antt =====
-- The loop of `Thread::CollectRemainingThreads` of game_client/game_client/Thread.cpp that waits for the
-- threads, by the table of those that run.
use easygametools.Base.{
  ℕ, zero, suc, ◌<◌, ◌≤◌, ◌≡◌, ◌≢◌, ◌==◌, ==_iff, refl, ap, sym, ◌∙◌, inl, inr, Bool, false, none,
  some, List, [], ◌∷◌, arith, length, Bool-cases, Option-cases,
}
use easygametools.Base.Table.{Table, lookup, remove, nat_eq, beq_refl, lookup-remove}
use easygametools.Base.Outcome.{Result, ok, Ensures, Ensures-bind, Ensures-weaken, IfOk-ok}
use easygametools.Threads.{
  Thread, Threads, thread_at, static_thread_func, waitfor, wait_turn, wait_all,
}
use easygametools.Threads.Ids.{Sound}
use easygametools.Threads.Tables.{remove-inv, same_value}
use easygametools.Threads.Steps.{Left, static_thread_func-IfOk}

-- What threads do that end, one after the other.
pub data Ends : Threads → Threads → Type 0 where
  no_end : (s : Threads) → Ends s s
  one_end :
      (throws : Bool) (p : ℕ) (s s' s'' : Threads)
      → Ends s s'
      → static_thread_func throws p s' ≡ ok s''
      → Ends s s''

remove_all : List ℕ → Table ℕ ℕ → Table ℕ ℕ
remove_all [] t = t
remove_all (k ∷ ks) t = remove k (remove_all ks t)

length-remove : (k : ℕ) (t : Table ℕ ℕ) → length (remove k t) ≤ length t
unfolding remove
length-remove k [] = omega arith
length-remove k ((j, v) ∷ t) = ground (arith, length-remove k t)

length-remove_lt : (k v : ℕ) (t : Table ℕ ℕ) → lookup k t ≡ some v → length (remove k t) < length t
unfolding remove lookup
length-remove_lt k v [] h = absurd cc
length-remove_lt k v ((j, w) ∷ t) h = elim (Bool-cases (j == k)) [
  | inl e ↦ rw e (omega (arith, length-remove k t))
  | inr e ↦ rw e (omega (arith, length-remove_lt k v t (rw e at h)))
]

length-remove_all : (ks : List ℕ) (t : Table ℕ ℕ) → length (remove_all ks t) ≤ length t
unfolding remove_all
length-remove_all [] t = omega arith
length-remove_all (k ∷ ks) t =
    omega (arith, length-remove k (remove_all ks t), length-remove_all ks t)

remove_all-inv :
    (ks : List ℕ) (t : Table ℕ ℕ) (id p : ℕ)
    → lookup id (remove_all ks t) ≡ some p
    → lookup id t ≡ some p
unfolding remove_all
remove_all-inv [] t id p h = h
remove_all-inv (k ∷ ks) t id p h =
    remove_all-inv ks t id p (remove-inv k id p (remove_all ks t) h).1

-- An entry that is gone has made the table shorter.
remove_all-gone :
    (ks : List ℕ) (t : Table ℕ ℕ) (id p : ℕ)
    → lookup id t ≡ some p
    → lookup id (remove_all ks t) ≡ none
    → length (remove_all ks t) < length t
unfolding remove_all
remove_all-gone [] t id p h gone = absurd cc
remove_all-gone (k ∷ ks) t id p h gone =
    let before = remove_all ks t in
    elim (Option-cases (lookup id before)) [
      | inl e ↦ omega (arith, length-remove k before, remove_all-gone ks t id p h e)
      | inr (q, e) ↦ omega (
        arith,
        length-remove_lt k q before (removed k id q before e gone),
        length-remove_all ks t,
      )
    ]
  where
    removed :
        (k id q : ℕ) (t : Table ℕ ℕ)
        → lookup id t ≡ some q
        → lookup id (remove k t) ≡ none
        → lookup k t ≡ some q
    removed k id q t e gone = elim (Bool-cases (k == id)) [
      | inl same ↦ rw ((==_iff k id).0 same) e
      | inr other ↦ absurd (ground (arith, lookup-remove k id t, other, e, gone))
    ]

Ends-Sound :
    (s s' : Threads)
    → Sound s
    → Ends s s'
    → Sound s' × ((ks : List ℕ) × (s'.running_threads ≡ remove_all ks s.running_threads))
unfolding remove_all
Ends-Sound _ _ h (Ends.no_end s) = (h, ([], refl))
Ends-Sound _ _ h (Ends.one_end throws p s s' s'' ends e) =
    let (sound, (ks, same)) = Ends-Sound s s' h ends in
    let (sound', what) = IfOk-ok _ (Left p s') e (static_thread_func-IfOk throws p s' sound) in
    (
      sound',
      elim what [
        | inl (t, at_p, idle, kept) ↦ (ks, kept ∙ same)
        | inr (id, under, removed) ↦ (id ∷ ks, removed ∙ ap (remove id) same)
      ],
    )

Ends-trans : (s s' s'' : Threads) → Ends s s' → Ends s' s'' → Ends s s''
Ends-trans s _ _ first (Ends.no_end s') = first
Ends-trans s _ _ first (Ends.one_end throws p s' mid after rest e) =
    Ends.one_end throws p s mid after (Ends-trans s s' mid first rest) e

-- What `waitfor` relies on: the thread that it waits for ends, in a call of its own, and no other thread
-- does anything meanwhile but end.
abbrev pub Waits : (ℕ → Threads → Result Threads) → Type 0
Waits waits =
    (p : ℕ) (t : Thread) (s : Threads)
    → Sound s
    → lookup p s.objects ≡ some t
    → t.thrid ≢ 0
    → Ensures (waits p s)
        (λ s'. Ends s s' × ((u : Thread) × (lookup p s'.objects ≡ some u) × (u.thrid ≡ 0)))

-- A turn of the loop that waits makes the table shorter.
turn-shortens :
    (waits : ℕ → Threads → Result Threads) (id p : ℕ) (s : Threads)
    → Waits waits
    → Sound s
    → lookup id s.running_threads ≡ some p
    → Ensures
        (waitfor waits p s)
        (λ s'. Sound s' × (length s'.running_threads < length s.running_threads) × Ends s s')
unfolding waitfor thread_at
turn-shortens waits id p s w h under =
    let (small, t, at_p, numbers) = h.0.1 id p under in
    rw (at_p, runs t.thrid numbers.1.0, numbers.1.1)
      (Ensures-weaken (waits p s) _ _ (w p t s h at_p numbers.1.0) (λ s' (ends, (u, at_p', idle)).
        let (sound, (ks, same)) = Ends-Sound s s' h ends in
        (
          sound,
          rw same (
              remove_all-gone ks s.running_threads id p under (gone s' ks sound same u at_p' idle)),
          ends,
        )))
  where
    runs : (i : ℕ) → i ≢ 0 → (i == 0) ≡ false
    runs i ne = ground (arith, ne, ==_iff i 0)

    gone :
        (s' : Threads) (ks : List ℕ)
        → Sound s'
        → s'.running_threads ≡ remove_all ks s.running_threads
        → (u : Thread) → lookup p s'.objects ≡ some u
        → u.thrid ≡ 0
        → lookup id (remove_all ks s.running_threads) ≡ none
    gone s' ks sound same u at_p' idle =
        elim (Option-cases (lookup id (remove_all ks s.running_threads))) [
          | inl e ↦ e
          | inr (q, e) ↦
              let before = remove_all-inv ks s.running_threads id q e in
              let q_is = same_value (lookup id s.running_threads) q p before under in
              let (small, v, at_q, numbers) = sound.0.1 id q (ap (lookup id) same ∙ e) in
              absurd (
                numbers.1.0 (
                  rw
                    (same_value (lookup p s'.objects) v u
                      (ap (λ r. lookup r s'.objects) (sym q_is) ∙ at_q) at_p')
                    idle))
        ]

-- Everything has ended.
abbrev pub IsDone : Threads → Threads → Type 0
IsDone s s' = Sound s' × (s'.running_threads ≡ []) × Ends s s'

-- A turn with an entry in the table, and what follows it.
wait_turn-IsDone :
    (later : Threads → Result Threads) (waits : ℕ → Threads → Result Threads) (t : Table ℕ ℕ)
    (s : Threads)
    → Waits waits
    → Sound s
    → s.running_threads ≡ t
    → ((s' : Threads)
        → Sound s'
        → length s'.running_threads < length s.running_threads
        → Ensures (later s') (IsDone s'))
    → Ensures (wait_turn later waits t s) (IsDone s)
unfolding wait_turn lookup
wait_turn-IsDone later waits [] s w h e rest = (h, e, Ends.no_end s)
wait_turn-IsDone later waits ((id, p) ∷ t) s w h e rest =
    Ensures-bind (waitfor waits p s) later _ (IsDone s)
      (turn-shortens waits id p s w h (rw (e, beq_refl id) refl))
      (λ s' (sound, less, ends).
        Ensures-weaken (later s') (IsDone s') (IsDone s) (rest s' sound less)
          (λ s'' (sound', empty, ends'). (sound', empty, Ends-trans s s' s'' ends ends')))

-- Fuel for as many turns as there are entries is enough.
pub wait_all-IsDone :
    (fuel : ℕ) (waits : ℕ → Threads → Result Threads) (s : Threads)
    → Waits waits
    → Sound s
    → length s.running_threads ≤ fuel
    → Ensures (wait_all fuel waits s) (IsDone s)
unfolding wait_all
wait_all-IsDone zero waits s w h enough =
    wait_turn-IsDone _ waits s.running_threads s w h refl
      (λ s' sound less. absurd (omega (arith, enough, less)))
wait_all-IsDone (suc n) waits s w h enough =
    wait_turn-IsDone _ waits s.running_threads s w h refl
      (λ s' sound less. wait_all-IsDone n waits s' w sound (omega (arith, enough, less)))
