-- ===== src/Threads/Ids.antt =====
-- The numbers under which `Thread::start` of game_client/game_client/Thread.cpp enters the threads.
use easygametools.Base.{
  ℕ, ◌+◌, ◌≤◌, ◌≡◌, ◌≢◌, ◌==◌, ==_iff, ap, sym, ◌∙◌, inl, inr, true, some, arith, Bool-cases,
}
use easygametools.Base.Table.{Table, lookup, insert, remove, nat_eq, lookup-insert_self}
use easygametools.Threads.{Thread, Threads}
use easygametools.Threads.Tables.{
  insert-inv, remove-inv, insert_other, remove_other, same_value, AreUnique,
}

-- A thread that runs, under its number.
abbrev pub IsListed : Thread → ℕ → Type 0
IsListed t id = (t.engine_threadid ≡ some id) × ((t.thrid ≢ 0) × (t.has_handle ≡ true))

-- Every thread that runs is in the table, under its number.
abbrev pub AreEntered : Table ℕ Thread → Table ℕ ℕ → Type 0
AreEntered objects running =
    (p : ℕ) (t : Thread)
    → lookup p objects ≡ some t
    → t.thrid ≢ 0
    → (id : ℕ) × IsListed t id × (lookup id running ≡ some p)

-- The table has threads that run, each under its number, and no number beyond the last one given.
abbrev pub AreRunning : Table ℕ Thread → Table ℕ ℕ → ℕ → Type 0
AreRunning objects running master =
    (id p : ℕ)
    → lookup id running ≡ some p
    → (id ≤ master) × (t : Thread) × (lookup p objects ≡ some t) × IsListed t id

abbrev pub Sound : Threads → Type 0
Sound s =
    (AreEntered s.objects s.running_threads
      × AreRunning s.objects s.running_threads s.engine_threadid_master)
    × AreUnique s.running_threads

-- A change of a thread that does not run.
pub insert-Sound :
    (p : ℕ) (t : Thread) (objects : Table ℕ Thread) (running : Table ℕ ℕ) (master : ℕ)
    → t.thrid ≡ 0
    → ((id : ℕ) → lookup id running ≢ some p)
    → AreEntered objects running × AreRunning objects running master
    → AreEntered (insert p t objects) running × AreRunning (insert p t objects) running master
insert-Sound p t objects running master zero_id absent (entered, listed) = (
  λ q u there id_there. elim (insert-inv p q t u objects there) [
    | inl (e, e') ↦ absurd (id_there (rw (← e') zero_id))
    | inr (ne, there') ↦ entered q u there' id_there
  ],
  λ id q there.
      let (small, u, there', numbers) = listed id q there in
      (small, u, insert_other p q t objects (λ e. absent id (rw e there)) ∙ there', numbers),
)

-- A thread is entered under the next number.
pub enter-Sound :
    (p : ℕ) (t : Thread) (objects : Table ℕ Thread) (running : Table ℕ ℕ) (master : ℕ)
    → IsListed t (master + 1)
    → ((id : ℕ) → lookup id running ≢ some p)
    → AreEntered objects running × AreRunning objects running master
    → AreEntered (insert p t objects) (insert (master + 1) p running)
      × AreRunning (insert p t objects) (insert (master + 1) p running) (master + 1)
enter-Sound p t objects running master numbers absent (entered, listed) = (
  λ q u there id_there. elim (insert-inv p q t u objects there) [
    | inl (e, e') ↦
        (master + 1, rw (← e') numbers, rw (← e) (lookup-insert_self (master + 1) p running))
    | inr (ne, there') ↦
        let (id, numbers', under) = entered q u there' id_there in
        let below = (listed id q under).0 in
        (id, numbers', insert_other (master + 1) id p running (omega (arith, below)) ∙ under)
  ],
  λ id q there. elim (insert-inv (master + 1) id p q running there) [
    | inl (e, e') ↦
        (omega (arith, e), t, rw (← e') (lookup-insert_self p t objects), rw (← e) numbers)
    | inr (ne, there') ↦
        let (small, u, at_q, numbers') = listed id q there' in
        (
          omega (arith, small),
          u,
          insert_other p q t objects (λ e. absent id (rw e there')) ∙ at_q,
          numbers',
        )
  ],
)

-- A thread leaves the table.
pub leave-Sound :
    (p id : ℕ) (t : Thread) (objects : Table ℕ Thread) (running : Table ℕ ℕ) (master : ℕ)
    → t.thrid ≡ 0
    → lookup id running ≡ some p
    → AreEntered objects running × AreRunning objects running master
    → AreEntered (insert p t objects) (remove id running)
      × AreRunning (insert p t objects) (remove id running) master
leave-Sound p id t objects running master zero_id under (entered, listed) = (
  λ q u there id_there. elim (insert-inv p q t u objects there) [
    | inl (e, e') ↦ absurd (id_there (rw (← e') zero_id))
    | inr (ne, there') ↦
        let (k, numbers, at_k) = entered q u there' id_there in
        (
          k,
          numbers,
          remove_other id k running (λ e. ne (
                same_value (lookup k running) p q (ap (λ i. lookup i running) (sym e) ∙ under)
                  at_k))
              ∙ at_k,
        )
  ],
  λ k q there.
      let (ne, there') = remove-inv id k q running there in
      let (small, u, at_q, numbers) = listed k q there' in
      let (small', v, at_p, numbers') = listed id p under in
      (
        small,
        u,
        insert_other p q t objects (λ e. ne (number_of p q u v e at_q at_p numbers.0 numbers'.0))
            ∙ at_q,
        numbers,
      ),
)
  where
    number_of :
        (p q : ℕ) (u v : Thread) {k id : ℕ}
        → p ≡ q
        → lookup q objects ≡ some u
        → lookup p objects ≡ some v
        → u.engine_threadid ≡ some k
        → v.engine_threadid ≡ some id
        → id ≡ k
    number_of p q u v e at_q at_p numbers numbers' = cc

-- A change that keeps the numbers of a thread.
pub keep-Sound :
    (p : ℕ) (t t' : Thread) (objects : Table ℕ Thread) (running : Table ℕ ℕ) (master : ℕ)
    → lookup p objects ≡ some t
    → t'.thrid ≡ t.thrid
    → ((id : ℕ) → IsListed t id → IsListed t' id)
    → AreEntered objects running × AreRunning objects running master
    → AreEntered (insert p t' objects) running × AreRunning (insert p t' objects) running master
keep-Sound p t t' objects running master at_p same keeps (entered, listed) = (
  λ q u there id_there. elim (insert-inv p q t' u objects there) [
    | inl (e, e') ↦
        let (id, numbers, under) = entered p t at_p (λ z. id_there (rw (← e') (same ∙ z))) in
        (id, rw (← e') (keeps id numbers), rw (← e) under)
    | inr (ne, there') ↦ entered q u there' id_there
  ],
  λ id q there.
      let (small, u, at_q, numbers) = listed id q there in
      elim (Bool-cases (p == q)) [
        | inl e ↦
            let e' = (==_iff p q).0 e in
            (
              small,
              t',
              rw (← e') (lookup-insert_self p t' objects),
              keeps id (
                  rw (same_value (lookup p objects) t u at_p (ap (λ i. lookup i objects) e' ∙ at_q))
                    numbers),
            )
        | inr e ↦ (
          small,
          u,
          insert_other p q t' objects (λ e'. absurd (ground (arith, e, e', ==_iff p q))) ∙ at_q,
          numbers,
        )
      ],
)
