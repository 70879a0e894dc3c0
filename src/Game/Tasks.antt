-- ===== src/Game/Tasks.antt =====
-- The tasks about the directory that the thread pool runs:
-- game_client/game_client/DirectoryUpdateTask.h and DirectoryAdoptTask.h.
--
-- The pointer to RakNet that an adopt task holds is taken to be the client's own.
use easygametools.Base.{ℕ, ◌-◌, ◌%◌, ◌^◌, ◌≡◌, Bool, true, false, Option, none, some, List, arith}
use easygametools.Base.Int.{ℤ, pos, negsuc}
use easygametools.Base.Text.{Bytes}
use easygametools.Base.Outcome.{null_pointer, or_error}
use easygametools.Xml.{Node}
use easygametools.Xml.ServerGame.{ServerGame}
use easygametools.Web.Request.{Internet}
use easygametools.Directory.{Directory, get_updated_game, adopt_game}
use easygametools.Directory
use easygametools.Protocol.{proto_new_host_message}
use easygametools.Protocol.Packets.{Wire, create_message}
use easygametools.Game.State.{Game, Action, ◌>>=◌, ◌>>◌, pure, lift, gets, deref}
use easygametools.Game.Network.{send_protocol_message}
use easygametools.Game.Lifecycle.{Rak, update_game}

-- `(unsigned short)`
unfoldable pub to_port : ℤ → ℕ
to_port (pos n) = n % 2 ^ 16
to_port (negsuc n) = 2 ^ 16 - 1 - n % 2 ^ 16

module _ (net : Internet) (parse_xml : Bytes → Option (List Node)) where
  -- `DirectoryUpdateTask::run`: the record goes into the task's own member.
  unfoldable pub run_update_task :
      Option ServerGame → Option Directory → Bool → Action (Option ServerGame)
  run_update_task game directory true = do
    d ← deref directory
    g ← deref game
    renewed ← lift (Directory.update_game net parse_xml g d)
    pure (some renewed)
  run_update_task game directory false = do
    d ← deref directory
    g ← deref game
    renewed ← lift (get_updated_game net parse_xml g.game_id d)
    pure (some renewed)

  -- Whatever the directory answers to an update, the client keeps the record of its game as it was, and
  -- the rest of its state: the renewed record stays in the task.
  run_update_task-same :
      (game : Option ServerGame) (directory : Option Directory) (is_host : Bool) (s : Game)
      → (run_update_task game directory is_host s).1 ≡ s
  unfolding run_update_task
  run_update_task-same game directory is_host s = ground arith

  module _ (rak : Rak) (w : Wire) where
    -- The first part of `DirectoryAdoptTask::run`; the creator of a game does not adopt it.
    unfoldable pub adopt : Option Directory → Option Bytes → ℤ → Bool → Action (Unit {0})
    adopt directory host_name port true = pure tt
    adopt directory host_name port false = do
      game ← gets (λ s. s.the_game)
      g ← deref game
      d ← deref directory
      host ← lift (or_error host_name null_pointer)
      adopted ←
          lift (adopt_game net parse_xml g.game_id host port (rak.guid_of host (to_port port)) d)
      update_game (some adopted)

    -- Every client of the game is told.
    unfoldable pub announce : Action (Unit {0})
    announce = do
      game ← gets (λ s. s.the_game)
      g ← deref game
      send_protocol_message (create_message w (proto_new_host_message g.game_id)) none

    -- `DirectoryAdoptTask::run`
    unfoldable pub run_adopt_task : Option Directory → Option Bytes → ℤ → Bool → Action (Unit {0})
    run_adopt_task directory host_name port creator = do
      adopt directory host_name port creator
      announce
