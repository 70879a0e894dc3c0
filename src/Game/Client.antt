-- ===== src/Game/Client.antt =====
-- The calls of game_client/game_client/GameClient.cpp that ask the client or set a member of it, and its
-- constructor.
use easygametools.Base.{Bool, false, Option, List, ◌&&◌, is_some, ◌≡◌, refl}
use easygametools.Base.Outcome.{Result, ok, ◌>>=◌}
use easygametools.Xml.ServerGame.{ServerGame}
use easygametools.Config.{Config}
use easygametools.Config.Loader.{Item, get_config_loader}
use easygametools.Game.State.{Game, ErrorState, error_ok, new_game, Action, gets, modify}
use easygametools.Game.Lifecycle.{is_current_game}
use easygametools.Game.Stopped.{IsStopped}

-- `GameClient::initGameClient`, and the constructor, which calls it: the loader of the variables and the
-- client.
unfoldable pub init_game_client : Bool → Option (List Item) → Option Config → Result (Config × Game)
unfolding get_config_loader
init_game_client warns file loader = do c ← get_config_loader warns file loader; ok (c, new_game)

-- `GameClient::isHost`; `is_host_system` is what the mesh says.
unfoldable pub is_host : Bool → Game → Bool
is_host is_host_system s =
    is_some s.my_player
    && is_some s.the_game
    && s.has_graph
    && s.has_mesh
    && is_some s.directory
    && is_some s.my_user
    && is_host_system

-- `GameClient::getError`
unfoldable pub get_error : Action ErrorState
get_error = gets (λ s. s.error_state)

-- `GameClient::clearErrorState`
unfoldable pub clear_error_state : Action (Unit {0})
clear_error_state = modify (λ s. record s { error_state = error_ok })

-- `GameClient::setEventListener`, by whether there is one.
unfoldable pub set_event_listener : Bool → Action (Unit {0})
set_event_listener has_one = modify (λ s. record s { has_listener = has_one })

-- A client that has stopped is no host, plays no game and tells of no error.
IsStopped-is_host :
    (is_host_system : Bool) (g : ServerGame) (s t : Game)
    → IsStopped s t
    → (is_host is_host_system t ≡ false)
      × ((is_current_game g t).0 ≡ ok false)
      × ((get_error t).0 ≡ ok error_ok)
unfolding is_host is_current_game get_error
IsStopped-is_host b g s t stopped = rw stopped.state (refl, refl, refl)
