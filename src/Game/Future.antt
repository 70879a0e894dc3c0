-- ===== src/Game/Future.antt =====
-- `ClientFuture::waitFor` of game_client/game_client/ClientFuture.h, and the critical section that a
-- future is.
use easygametools.Base.{ℕ, zero, suc, ◌-◌, ◌≡◌, if◌then◌else◌, ltb, arith}
use easygametools.Base.Outcome.{Result, ok, err, not_owner, ◌>>=◌}
use easygametools.Game.State.{Future, FutureCode}
use easygametools.Pool.Sections.{leave}

-- The loop, by the number of its turns until the future is complete and by how often the thread has
-- entered the section.
unfoldable pub wait_turns : ℕ → ℕ → Result ℕ
wait_turns zero entered = ok entered
wait_turns (suc n) entered = do entered' ← leave entered; wait_turns n entered'

-- `ClientFuture::waitFor`
unfoldable pub wait_for : ℕ → Future → ℕ → Result (FutureCode × ℕ)
unfolding wait_turns
wait_for turns f entered = do
  entered' ← wait_turns turns (suc entered)
  entered'' ← leave entered'
  ok (f.code, entered'')

pub wait_for_lem :
    (turns : ℕ) (f : Future) (entered : ℕ)
    → wait_for turns f entered
      ≡ (if ltb entered turns then err not_owner else ok (f.code, entered - turns))
unfolding wait_for wait_turns
wait_for_lem zero f entered = ground arith
wait_for_lem (suc zero) f zero = ground arith
wait_for_lem (suc (suc n)) f zero = ground arith
wait_for_lem (suc n) f (suc entered) = ground (arith, wait_for_lem n f entered)
