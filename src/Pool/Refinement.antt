-- ===== src/Pool/Refinement.antt =====
-- The thread pool of ThreadPool.cpp against what it promises to a client.
use easygametools.Base.{
  ℕ, ◌+◌, ◌≡◌, refl, ap, ◌∙◌, inl, inr, ◌⊎◌, Bool, true, false, Option, none, some, List, [], ◌∷◌,
  ◌++◌, if◌then◌else◌, if_false, length, not, Bool-cases, arith,
}
use easygametools.Base.Int.{ltb_ℤ}
use easygametools.Base.Outcome.{Error, Result, ok, err, Ensures, Ensures-weaken}
use easygametools.Base.Occurrences.{occurrences-append}
use easygametools.Pool.{ThreadPool, new_worker, grown, grow, dispatch_to, execute_on, execute}
use easygametools.Pool.Accounts.{
  pending, WellFormed, one_task, offer-idle, held-offered, held-append,
}
use easygametools.Pool.Places.{free-idle, taken-WellFormed, grown-WellFormed}

-- What a client sees: how often each task is still to run, and the tasks that have run.
pub record Account : Type 0 where
  pub to_run : ℕ → ℕ
  pub has_run : List ℕ

abbrev pub account : ThreadPool → Account
account p = record { to_run = pending p; has_run = p.ran }

pub data Event : Type 0 where
  submit finish : ℕ → Event
  nothing : Event

-- The promise: a task that is submitted is to be run once more, one that finishes once less.
abbrev pub SpecStep : Event → Account → Account → Type 0
SpecStep (Event.submit t) a b =
    ((q : ℕ) → b.to_run q ≡ a.to_run q + one_task t q) × (b.has_run ≡ a.has_run)
SpecStep (Event.finish t) a b =
    ((q : ℕ) → a.to_run q ≡ b.to_run q + one_task t q) × (b.has_run ≡ a.has_run ++ t ∷ [])
SpecStep Event.nothing a b = ((q : ℕ) → b.to_run q ≡ a.to_run q) × (b.has_run ≡ a.has_run)

-- The event of `execute`, and that of a turn of a worker.
abbrev pub execute_event : ThreadPool → ℕ → Event
execute_event p t = if p.is_closing then Event.nothing else Event.submit t

abbrev pub turn_event : Option ℕ → Event
turn_event none = Event.nothing
turn_event (some t) = Event.finish t

-- The first free worker takes the task.
dispatch_to-Submits :
    (w : ℕ) (ws : List ℕ) (t : ℕ) (p : ThreadPool)
    → WellFormed p
    → p.thread_pool ≡ w ∷ ws
    → Ensures
        (dispatch_to (w ∷ ws) t p)
        (λ p'. WellFormed p' × SpecStep (Event.submit t) (account p) (account p'))
unfolding dispatch_to
dispatch_to-Submits w ws t p h first =
    let (x, at, idle, once) = free-idle w ws p h first in
    rw (offer-idle w t x (record p { thread_pool = ws }) at idle) (
      taken-WellFormed w ws x (record { has_listener = x.has_listener; submitted = some t }) t p h
          first at refl once,
      ((λ q. omega (arith, held-offered w t x p.workers at idle q)), refl),
    )

grown-Submits :
    (free : List ℕ) (t : ℕ) (p : ThreadPool)
    → WellFormed p
    → (grown p).thread_pool ≡ free
    → free ≡ length p.workers ∷ []
    → Ensures
        (dispatch_to free t (grown p))
        (λ p'. WellFormed p' × SpecStep (Event.submit t) (account p) (account p'))
unfolding grown
grown-Submits free t p h e single = rw single (
    Ensures-weaken (dispatch_to (length p.workers ∷ []) t (grown p)) _ _
      (dispatch_to-Submits (length p.workers) [] t (grown p) (grown-WellFormed p h) (e ∙ single))
      (λ p' (good, (more, same)). (
        good,
        ((λ q. more q ∙ omega (arith, held-append q p.workers (new_worker false ∷ []))), same),
      )))

-- A call throws what the start of a thread throws, or it does what is promised.
abbrev pub Succeeds : Result (Unit {0}) → Result ThreadPool → (ThreadPool → Type 0) → Type 0
Succeeds begun m P = ((e : Error) × (begun ≡ err e) × (m ≡ err e)) ⊎ Ensures m P

execute_on-Submits :
    (begun : Result (Unit {0})) (free : List ℕ) (t : ℕ) (p : ThreadPool)
    → WellFormed p
    → p.thread_pool ≡ free
    → Succeeds begun
        (execute_on begun free t p)
        (λ p'. WellFormed p' × SpecStep (Event.submit t) (account p) (account p'))
unfolding execute_on grow grown
execute_on-Submits begun (w ∷ ws) t p h first = inr (dispatch_to-Submits w ws t p h first)
execute_on-Submits (ok _) [] t p h none_free = elim (Bool-cases (ltb_ℤ p.current_size p.max_size)) [
  | inl room ↦ inr (
      rw room (
        grown-Submits (grown p).thread_pool t p h refl
          (ap (λ l. l ++ length p.workers ∷ []) none_free)))
  | inr full ↦
      inr (rw full (h, ((λ q. omega (arith, occurrences-append q p.task_queue (t ∷ []))), refl)))
]
execute_on-Submits (err e) [] t p h none_free =
    elim (Bool-cases (ltb_ℤ p.current_size p.max_size)) [
      | inl room ↦ inl (e, refl, rw room refl)
      | inr full ↦
          inr
            (rw full (h, ((λ q. omega (arith, occurrences-append q p.task_queue (t ∷ []))), refl)))
    ]

-- Where the pool is started.
pub execute-started :
    (begun : Result (Unit {0})) (t : ℕ) (p : ThreadPool)
    → p.started ≡ true
    → execute begun t p ≡ (if p.is_closing then ok p else execute_on begun p.thread_pool t p)
unfolding execute
execute-started begun t p started = if_false _ (not p.started) (ap not started)

execute_open-SpecStep :
    (begun : Result (Unit {0})) (closing : Bool) (t : ℕ) (p : ThreadPool)
    → WellFormed p
    → Succeeds begun (if closing then ok p else execute_on begun p.thread_pool t p) (λ p'.
      WellFormed p'
      × SpecStep (if closing then Event.nothing else Event.submit t) (account p) (account p'))
execute_open-SpecStep begun true t p h = inr (h, ((λ q. refl), refl))
execute_open-SpecStep begun false t p h = execute_on-Submits begun p.thread_pool t p h refl

-- From a well-formed pool that is started, `execute` throws what the start of a new thread throws, or it
-- succeeds and leaves the pool well formed. The task is then to be run once more, whether a worker has
-- it or the queue, and no other changes; a pool that is closing forgets the task.
pub execute-SpecStep :
    (begun : Result (Unit {0})) (t : ℕ) (p : ThreadPool)
    → WellFormed p
    → p.started ≡ true
    → Succeeds begun
        (execute begun t p)
        (λ p'. WellFormed p' × SpecStep (execute_event p t) (account p) (account p'))
execute-SpecStep begun t p h started =
    rw (execute-started begun t p started) (execute_open-SpecStep begun p.is_closing t p h)

-- How often a worker that is done leaves `taskQueueSem` when it is not in it.
abbrev pub strays : List ℕ → ℕ
strays [] = 0
strays (t ∷ ts) = 1

abbrev pub turn_strays : Bool → Option ℕ → List ℕ → ℕ
turn_strays true (some t) queue = strays queue
turn_strays _ _ queue = 0

-- What a turn leaves.
abbrev pub TurnDone : Bool → Option ℕ → ThreadPool → ThreadPool → Type 0
TurnDone listens o p p' =
    WellFormed p'
    × SpecStep (turn_event o) (account p) (account p')
    × (p'.stray_leaves ≡ p.stray_leaves + turn_strays listens o p.task_queue)
