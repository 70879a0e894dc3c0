-- ===== src/Pool/Accounts.antt =====
-- Which tasks a pool of ThreadPool.cpp still has to run, and how `offer` changes it.
use easygametools.Base.{
  ℕ, zero, suc, ◌+◌, ◌≡◌, refl, sym, ◌∙◌, ◌⊎◌, Option, none, some, List, [], ◌∷◌, ◌++◌,
  if◌then◌else◌, ◌==◌, get_elem?, length, arith,
}
use easygametools.Base.Outcome.{ok}
use easygametools.Base.Occurrences.{points, occurrences}
use easygametools.Pool.{Worker, ThreadPool, set_worker, offer_to, offer}

-- How many workers have the task `q`.
abbrev pub held : ℕ → List Worker → ℕ
held q [] = 0
held q (x ∷ xs) = points q x.submitted + held q xs

-- The tasks that wait, and those that workers have.
abbrev pub pending : ThreadPool → ℕ → ℕ
pending p q = occurrences q p.task_queue + held q p.workers

pub held-set_worker :
    (q w : ℕ) (x y : Worker) (xs : List Worker)
    → get_elem? xs w ≡ some y
    → held q (set_worker w x xs) + points q y.submitted ≡ held q xs + points q x.submitted
held-set_worker q w x y [] at = absurd cc
held-set_worker q zero x y (z ∷ zs) at = let same : z ≡ y = cc in rw (sym same) (omega arith)
held-set_worker q (suc w) x y (z ∷ zs) at = omega (arith, held-set_worker q w x y zs at)

pub held-append : (q : ℕ) (xs ys : List Worker) → held q (xs ++ ys) ≡ held q xs + held q ys
held-append q [] ys = omega arith
held-append q (x ∷ xs) ys = omega (arith, held-append q xs ys)

pub get_elem?-set_worker :
    (v w : ℕ) (x y : Worker) (xs : List Worker)
    → get_elem? xs w ≡ some y
    → get_elem? (set_worker w x xs) v ≡ (if w == v then some x else get_elem? xs v)
get_elem?-set_worker v w x y [] at = absurd cc
get_elem?-set_worker zero zero x y (z ∷ zs) at = refl
get_elem?-set_worker (suc v) zero x y (z ∷ zs) at = ground arith
get_elem?-set_worker zero (suc w) x y (z ∷ zs) at = ground arith
get_elem?-set_worker (suc v) (suc w) x y (z ∷ zs) at =
    get_elem?-set_worker v w x y zs at ∙ ground arith

pub length-set_worker :
    (w : ℕ) (x : Worker) (xs : List Worker) → length (set_worker w x xs) ≡ length xs
length-set_worker w x [] = refl
length-set_worker zero x (y ∷ ys) = refl
length-set_worker (suc w) x (y ∷ ys) = omega (arith, length-set_worker w x ys)

-- What each worker's number is to the list of the free: at most once there, and only without a task.
abbrev pub Standing : Option ℕ → ℕ → Type 0
Standing none n = (n ≡ 0) ⊎ (n ≡ 1)
Standing (some t) n = n ≡ 0

abbrev pub StandingAt : Option Worker → ℕ → Type 0
StandingAt none n = n ≡ 0
StandingAt (some x) n = Standing x.submitted n

abbrev pub WellFormed : ThreadPool → Type 0
WellFormed p = (w : ℕ) → StandingAt (get_elem? p.workers w) (occurrences w p.thread_pool)

-- What one task adds.
abbrev pub one_task : ℕ → ℕ → ℕ
one_task t q = if t == q then 1 else 0

-- A worker that has no task takes the one it is offered.
pub offer-idle :
    (w task : ℕ) (x : Worker) (p : ThreadPool)
    → get_elem? p.workers w ≡ some x
    → x.submitted ≡ none
    → offer w task p
      ≡ ok (record p {
        workers =
            set_worker w
              (record { has_listener = x.has_listener; submitted = some task })
              p.workers;
      })
unfolding offer offer_to
offer-idle w task x p at idle = rw (at, idle) refl

pub held-offered :
    (w task : ℕ) (x : Worker) (xs : List Worker)
    → get_elem? xs w ≡ some x
    → x.submitted ≡ none
    → (q : ℕ)
    → held q (set_worker w (record { has_listener = x.has_listener; submitted = some task }) xs)
      ≡ held q xs + one_task task q
held-offered w task x xs at idle q =
    let before : points q x.submitted ≡ 0 = rw idle refl in
    omega (
      arith,
      before,
      held-set_worker q w (record { has_listener = x.has_listener; submitted = some task }) x xs at,
    )

-- The place after the last worker.
pub get_elem?-after : (xs : List Worker) → get_elem? xs (length xs) ≡ none
get_elem?-after [] = refl
get_elem?-after (x ∷ xs) = get_elem?-after xs

pub get_elem?-append_one :
    (v : ℕ) (xs : List Worker) (y : Worker)
    → get_elem? (xs ++ y ∷ []) v ≡ (if length xs == v then some y else get_elem? xs v)
get_elem?-append_one zero [] y = refl
get_elem?-append_one (suc v) [] y = ground arith
get_elem?-append_one zero (x ∷ xs) y = ground arith
get_elem?-append_one (suc v) (x ∷ xs) y = get_elem?-append_one v xs y ∙ ground arith
