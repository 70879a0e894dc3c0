-- ===== src/Game/Schedule.antt =====
-- When the network thread asks the directory for an update.
use easygametools.Base.{
  ℕ, ◌+◌, ◌-◌, ◌*◌, ◌%◌, ◌^◌, ◌≤◌, ◌<◌, ◌≡◌, refl, true, false, some, [], ◌∷◌, ◌++◌, ltb, arith,
}
use easygametools.Base.Int.{pos}
use easygametools.Base.Text.{Bytes, strcmp_eq}
use easygametools.Base.Outcome.{ok}
use easygametools.Xml.User.{User}
use easygametools.Xml.ServerGame.{ServerGame}
use easygametools.Game.State.{Game, Player, update_task, execute}
use easygametools.Game.Loop.{lower, is_due, tick, schedule_update}

-- A client that comes or goes makes the update due sooner, by five seconds for each of the eight seats
-- that are free: after `elapsed` milliseconds it is due as if so much more time had gone by, also where
-- the clock wraps around.
is_due-lower :
    (n last elapsed : ℕ)
    → n ≤ 8
    → last < 2 ^ 32
    → elapsed + (8 - n) * 5000 < 2 ^ 32
    → is_due ((last + elapsed) % 2 ^ 32) (lower (pos n) last) ≡ ltb 45000 (elapsed + (8 - n) * 5000)
unfolding is_due lower
is_due-lower n last elapsed seats small short = ground arith

not_due : (later d : ℕ) → later < 2 ^ 32 → d ≤ 45000 → is_due ((later + d) % 2 ^ 32) later ≡ false
unfolding is_due
not_due later d small soon = ground arith

-- Where an update is due, the client plays in a game whose host user and guid are known, has its own user
-- and player, and has a thread pool, a turn of the loop hands one update task to the pool, as the host if
-- the game's guid is the client's own, and none is due for the next 45 seconds, also where the clock wraps
-- around.
pub tick-not_due :
    (now later d : ℕ) (g : ServerGame) (known host : User) (guid : Bytes) (me : Player) (s : Game)
    → later < 2 ^ 32
    → d ≤ 45000
    → is_due now s.last_updated ≡ true
    → s.the_game ≡ some g
    → s.my_user ≡ some known
    → g.host_user ≡ some host
    → g.host_guid ≡ some guid
    → s.my_player ≡ some me
    → s.has_pool ≡ true
    → ((tick now later s).0 ≡ ok tt)
      × ((tick now later s).1.tasks
          ≡ s.tasks ++ update_task (some g) s.directory (strcmp_eq guid me.client_guid) ∷ [])
      × (is_due ((later + d) % 2 ^ 32) (tick now later s).1.last_updated ≡ false)
unfolding tick schedule_update execute
tick-not_due now later d g known host guid me s small soon due plays is_known hosted has_guid is_me
      pool =
    rw (due, plays, is_known, hosted, has_guid, is_me, pool)
      (refl, refl, not_due later d small soon)
