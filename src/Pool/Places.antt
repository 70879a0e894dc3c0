-- ===== src/Pool/Places.antt =====
-- The well-formed pools of ThreadPool.cpp: the free workers and the others.
use easygametools.Base.{
  ℕ, ◌+◌, ◌≡◌, refl, sym, ◌∙◌, inl, inr, false, Option, none, some, List, [], ◌∷◌, ◌++◌, ◌==◌,
  ==_iff, ==_refl, get_elem?, length, Bool-cases, Option-cases, arith,
}
use easygametools.Base.Occurrences.{occurrences, occurrences-append}
use easygametools.Pool.{Worker, ThreadPool, set_worker, new_worker, grown}
use easygametools.Pool.Accounts.{
  Standing, StandingAt, WellFormed, get_elem?-set_worker, get_elem?-after, get_elem?-append_one,
}

-- The statement for one worker carries over where nothing changes for it.
StandingAt-same :
    (o o' : Option Worker) (n n' : ℕ) → o' ≡ o → n' ≡ n → StandingAt o n → StandingAt o' n'
StandingAt-same o o' n n' eo en h = rw (eo, en) h

idle_once : (o : Option ℕ) (n : ℕ) → Standing o (1 + n) → (o ≡ none) × (n ≡ 0)
idle_once none n (inl h) = absurd (omega arith)
idle_once none n (inr h) = (refl, omega arith)
idle_once (some t) n h = absurd (omega arith)

Standing-zero : (o : Option ℕ) → Standing o 0
Standing-zero none = inl refl
Standing-zero (some t) = refl

-- A free worker has no task, and stands among the free once.
pub free-idle :
    (w : ℕ) (ws : List ℕ) (p : ThreadPool)
    → WellFormed p
    → p.thread_pool ≡ w ∷ ws
    → (x : Worker) × (get_elem? p.workers w ≡ some x)
      × (x.submitted ≡ none)
      × (occurrences w ws ≡ 0)
free-idle w ws p h first = elim (Option-cases (get_elem? p.workers w)) [
  | inl absent ↦ absurd (ground (arith, ==_refl w, rw (absent, first) at (h w)))
  | inr (x, at) ↦
      let facts = idle_once x.submitted (occurrences w ws) (rw (at, first, ==_refl w) at (h w)) in
      (x, at, facts.0, facts.1)
]

-- A worker of the list of the free takes a task.
pub taken-WellFormed :
    (w : ℕ) (ws : List ℕ) (x y : Worker) (t : ℕ) (p : ThreadPool)
    → WellFormed p
    → p.thread_pool ≡ w ∷ ws
    → get_elem? p.workers w ≡ some x
    → y.submitted ≡ some t
    → occurrences w ws ≡ 0
    → WellFormed (record p { thread_pool = ws; workers = set_worker w y p.workers })
taken-WellFormed w ws x y t p h first at busy once v = elim (Bool-cases (w == v)) [
  | inl same ↦
      let here = (==_iff w v).0 same in
      StandingAt-same (some y) _ 0 _ (get_elem?-set_worker v w y x p.workers at ∙ rw same refl)
        (rw (sym here) once) (rw busy refl)
  | inr apart ↦
      StandingAt-same (get_elem? p.workers v) _ (occurrences v p.thread_pool) _
        (get_elem?-set_worker v w y x p.workers at ∙ rw apart refl)
        (rw (first, apart) (omega arith)) (h v)
]

-- A new worker joins.
pub grown-WellFormed : (p : ThreadPool) → WellFormed p → WellFormed (grown p)
unfolding grown
grown-WellFormed p h v = elim (Bool-cases (length p.workers == v)) [
  | inl same ↦
      let here = (==_iff (length p.workers) v).0 same in
      let away : occurrences v p.thread_pool ≡ 0 =
        rw (sym here) (rw (get_elem?-after p.workers) at (h (length p.workers))) in
      StandingAt-same (some (new_worker false)) _ 1 _
        (get_elem?-append_one v p.workers (new_worker false) ∙ rw same refl)
        (occurrences-append v p.thread_pool (length p.workers ∷ []) ∙ rw (same, away) refl)
        (inr refl)
  | inr apart ↦
      StandingAt-same (get_elem? p.workers v) _ (occurrences v p.thread_pool) _
        (get_elem?-append_one v p.workers (new_worker false) ∙ rw apart refl)
        (occurrences-append v p.thread_pool (length p.workers ∷ []) ∙ rw apart (omega arith)) (h v)
]

-- A worker changes that is not among the free, and does not join them.
pub changed-WellFormed :
    (w : ℕ) (x y : Worker) (p : ThreadPool)
    → WellFormed p
    → get_elem? p.workers w ≡ some x
    → occurrences w p.thread_pool ≡ 0
    → WellFormed (record p { workers = set_worker w y p.workers })
changed-WellFormed w x y p h at away v = elim (Bool-cases (w == v)) [
  | inl same ↦
      StandingAt-same (some y) _ 0 _ (get_elem?-set_worker v w y x p.workers at ∙ rw same refl)
        (rw (sym ((==_iff w v).0 same)) away) (Standing-zero y.submitted)
  | inr apart ↦
      StandingAt-same (get_elem? p.workers v) _ (occurrences v p.thread_pool) _
        (get_elem?-set_worker v w y x p.workers at ∙ rw apart refl) refl (h v)
]

-- A worker without a task, that is not among the free, joins them.
pub freed-WellFormed :
    (w : ℕ) (x : Worker) (p : ThreadPool)
    → WellFormed p
    → get_elem? p.workers w ≡ some x
    → x.submitted ≡ none
    → occurrences w p.thread_pool ≡ 0
    → WellFormed (record p { thread_pool = p.thread_pool ++ w ∷ [] })
freed-WellFormed w x p h at idle away v = elim (Bool-cases (w == v)) [
  | inl same ↦
      let here = (==_iff w v).0 same in
      StandingAt-same (some x) _ 1 _ (rw (sym here) at)
        (occurrences-append v p.thread_pool (w ∷ []) ∙ rw (same, sym here, away) refl)
        (rw idle (inr refl))
  | inr apart ↦
      StandingAt-same (get_elem? p.workers v) _ (occurrences v p.thread_pool) _ refl
        (occurrences-append v p.thread_pool (w ∷ []) ∙ rw apart (omega arith)) (h v)
]
