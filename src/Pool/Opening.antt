-- ===== src/Pool/Opening.antt =====
-- A pool of ThreadPool.cpp as it is made and started.
use easygametools.Base.{
  ℕ, zero, suc, ◌+◌, ◌<◌, ◌≡◌, refl, ◌∙◌, inl, inr, false, List, [], ◌∷◌, ◌++◌, get_elem?, length,
  ◌==◌, arith,
}
use easygametools.Base.Int.{ℤ, pos_part}
use easygametools.Base.Outcome.{
  Result, IfOk, IfOk-ok, IfOk-bind, IfOk-all, IfOk-weaken, Result-cases,
}
use easygametools.Base.Occurrences.{occurrences, occurrences-append}
use easygametools.Pool.{first_workers, first_threads, new_thread_pool, rotate, start}
use easygametools.Pool.Accounts.{StandingAt, WellFormed}

occurrences-rotate :
    (w : ℕ) (begins : ℕ → Result (Unit {0})) (n : ℕ) (ws : List ℕ)
    → IfOk (rotate begins n ws) (λ ws'. occurrences w ws' ≡ occurrences w ws)
unfolding rotate
occurrences-rotate w begins zero ws = refl
occurrences-rotate w begins (suc n) [] = refl
occurrences-rotate w begins (suc n) (v ∷ ws) =
    IfOk-bind (begins v) _ (λ _. Unit {0}) _ (IfOk-all (begins v) _ (λ _. tt))
      (λ _ _.
        IfOk-weaken (rotate begins n (ws ++ v ∷ [])) _ _
          (occurrences-rotate w begins n (ws ++ v ∷ []))
          (λ ws' same. same ∙ occurrences-append w ws (v ∷ []) ∙ omega arith))

occurrences-below : (w i n : ℕ) → w < i → occurrences w (first_threads i n) ≡ 0
unfolding first_threads
occurrences-below w i zero h = refl
occurrences-below w i (suc n) h = ground (arith, occurrences-below w (suc i) n)

-- The worker `v` of the first `n`, counted from `i`.
standing-first :
    (v i n j : ℕ)
    → j ≡ i + v
    → StandingAt (get_elem? (first_workers n) v) (occurrences j (first_threads i n))
unfolding first_workers first_threads
standing-first v i zero j e = refl
standing-first zero i (suc n) j e = inr (ground (arith, occurrences-below j (suc i) n))
standing-first (suc v) i (suc n) j e =
    let apart : (i == j) ≡ false = ground arith in
    let later : 0 + occurrences j (first_threads (suc i) n)
        ≡ occurrences j (first_threads (suc i) n) =
      omega arith in
    rw (apart, later) (standing-first v (suc i) n j (omega arith))

-- Its free workers are different and have no task.
pub start-WellFormed :
    (begins : ℕ → Result (Unit {0})) (min_size max_size : ℤ)
    → IfOk (start begins (new_thread_pool min_size max_size)) WellFormed
unfolding start new_thread_pool
start-WellFormed begins min_size max_size =
    let n = pos_part min_size in
    let ws = first_threads 0 n in
    elim (Result-cases (rotate begins (length ws) ws)) [
      | inr (e, throws) ↦ rw throws tt
      | inl (ws', done) ↦ rw done (λ w.
          rw
            (IfOk-ok _ (λ l. occurrences w l ≡ occurrences w ws) done
              (occurrences-rotate w begins (length ws) ws))
            (standing-first w 0 n w (omega arith)))
    ]
