-- ===== src/Game/Lifecycle.antt =====
-- How a client starts, hosts or joins a game, and stops: game_client/game_client/GameClient.cpp.
--
-- The network thread starts to run after `startGame` and `joinGame`; Game/Loop is about it. The player
-- of the client stands in the table as a copy: what changes it later is not seen there.
use easygametools.Base.{
  ℕ, zero, suc, ◌%◌, ◌^◌, Bool, true, false, Option, none, some, List, [], ◌++◌, ◌==◌,
  if◌then◌else◌,
}
use easygametools.Base.Int.{ℤ, pos, negsuc}
use easygametools.Base.Text.{Bytes, codes, strcmp_eq}
use easygametools.Base.Table.{insert, bytes_eq}
use easygametools.Base.Outcome.{
  Result, ok, err, fatal, protocol_error, login_failed, null_pointer, out_of_fuel, or_error,
}
use easygametools.Xml.{Node}
use easygametools.Xml.User.{User}
use easygametools.Xml.ServerGame.{ServerGame}
use easygametools.Web.Request.{Internet, snprintf}
use easygametools.Config.{Config}
use easygametools.Directory.{
  Directory, new_directory, login, delete_game, create_game, get_external_ip, get_game_list,
}
use easygametools.Game.State.{
  Game, Player, new_player, ConnectionState, connected, authenticated, ErrorState, error_ok,
  cant_register_client, Future, future_ok, future_error, Action, ◌>>=◌, ◌>>◌, pure, raise, lift,
  gets, modify, deref, call, close_all_connections, add_participant, fire_event,
  directory_client_connected,
}

-- What the client asks of RakNet when it starts: whether a port is taken, whether `Startup` succeeds,
-- the guid of an address, and whether `Connect` starts an attempt.
pub record Rak : Type 0 where
  pub port_in_use : ℕ → Bool
  pub started : ℕ → Bool
  pub guid_of : Bytes → ℕ → Bytes
  pub connecting : Option Bytes → ℤ → Bool

-- `while (IsPortInUse(desiredPort)) desiredPort++`; `IsPortInUse` takes an `unsigned short`.
unfoldable pub find_port : (ℕ → Bool) → ℕ → ℕ → Result ℕ
find_port in_use zero p = err out_of_fuel
find_port in_use (suc fuel) p = elim (in_use (p % 2 ^ 16)) [
  | true ↦ find_port in_use fuel (suc p)
  | false ↦ ok p
]

-- What `stopClient` resets at its end.
abbrev pub reset : Game → Game
reset s = record s {
  hostname = none;
  port = pos 0;
  has_peer = false;
  has_mesh = false;
  has_graph = false;
  directory = none;
  the_game = none;
  my_user = none;
  last_updated = 0;
  error_state = error_ok;
  has_listener = false;
  has_dispatcher = false;
  has_pool = false;
  my_player = none;
  game_players = [];
}

abbrev pub close_peer : Bool → Action (Unit {0})
close_peer true = call true close_all_connections
close_peer false = pure tt

-- A future that waits for nothing any more.
abbrev pub failed_future : Future
failed_future = record { complete = true; code = future_error }

-- `setHost` and the like, on the player of the client.
abbrev pub seated : Bytes → ℕ → ConnectionState → Bytes → Player → Player
seated host port state guid me = record me {
  host = some host;
  port = pos port;
  connection_state = state;
  client_guid = guid;
}

-- The end of `startGame` and `joinGame`: the client's own player goes into the table.
unfoldable pub enter_game : Bytes → ℕ → ConnectionState → Bytes → Action (Unit {0})
enter_game host port state guid = do
  me ← gets (λ s. s.my_player)
  me' ← deref me
  modify (λ s. record s {
    my_player = some (seated host port state guid me');
    game_players = insert guid (some (seated host port state guid me')) s.game_players;
  })
  mesh ← gets (λ s. s.has_mesh)
  call mesh (add_participant guid)

abbrev same_id : ℤ → ℤ → Bool
same_id (pos a) (pos b) = a == b
same_id (negsuc a) (negsuc b) = a == b
same_id _ _ = false

-- `GameClient::isCurrentGame`
unfoldable pub is_current_game : ServerGame → Action Bool
is_current_game g s = elim s.the_game [
  | none ↦ (ok false, s)
  | some h ↦ (ok (same_id g.game_id h.game_id), s)
]

-- `GameClient::updateGame`
unfoldable pub update_game : Option ServerGame → Action (Unit {0})
update_game none = raise (protocol_error "UpdateGame(): game is null")
update_game (some g) = modify (λ s. record s { the_game = some g })

module _ (net : Internet) (parse_xml : Bytes → Option (List Node)) where
  -- `GameClient::initDirectoryClient`, with the result of the login.
  unfoldable pub finish_init : Bytes → Option User × Directory → Action (Unit {0})
  finish_init username (none, d) = do
    modify (λ s. record s { directory = some d; my_user = none })
    msg ← lift (snprintf 254 (codes "Login failed for user [" ++ (username ++ codes "]")))
    raise (login_failed msg)
  finish_init username (some u, d) = do
    modify (λ s. record s {
      directory = some d;
      my_user = some u;
      my_player = some (record new_player { user = some u });
    })
    fire_event directory_client_connected

  -- `GameClient::initDirectoryClient`, and `startClient`, which only calls it. Reading the
  -- configuration changes none of its values.
  unfoldable pub init_directory_client : Config → Bytes → Bytes → Action (Unit {0})
  init_directory_client config username password = do
    let fresh = (new_directory config).0
    modify (λ s. record s { directory = some fresh })
    answer ← lift (login net parse_xml username password fresh)
    finish_init username answer

  -- The game that the client owns is deleted, by `strcmp` of the guids.
  unfoldable pub release : Option ServerGame → Action (Unit {0})
  release none = pure tt
  release (some g) = do
    me ← gets (λ s. s.my_player)
    me' ← deref me
    host_guid ← lift (or_error g.host_guid null_pointer)
    d ← gets (λ s. s.directory)
    if strcmp_eq me'.client_guid host_guid
        then (do d' ← deref d; lift (delete_game net parse_xml g.game_id d'))
        else pure tt

  -- `GameClient::stopDirectoryClient`
  unfoldable pub stop_directory_client : Action (Unit {0})
  stop_directory_client = do
    game ← gets (λ s. s.the_game)
    release game
    modify (λ s. record s { the_game = none; my_user = none })

  -- `GameClient::stopClient`
  unfoldable pub stop_client : Action (Unit {0})
  stop_client = do
    stop_directory_client
    peer ← gets (λ s. s.has_peer)
    close_peer peer
    modify reset

  -- `GameClient::killClient`; `waits` is what the thread of the dispatcher does, once it is signalled, until
  -- it has ended.
  unfoldable pub kill_client : Action (Unit {0}) → Action (Unit {0})
  kill_client waits = do
    dispatcher ← gets (λ s. s.has_dispatcher)
    if dispatcher then waits else pure tt
    stop_client

  -- The four steps after a failed start.
  unfoldable pub fail_start : ErrorState → Action (Unit {0})
  fail_start e = do
    stop_client
    modify (λ s. record s { error_state = e })
    future ← gets (λ s. s.startup_future)
    _ ← deref future
    modify (λ s. record s { startup_future = some failed_future })

  unfoldable pub resolve_host : Option Bytes → Action Bytes
  resolve_host (some host) = pure host
  resolve_host none = do
    d ← gets (λ s. s.directory)
    d' ← deref d
    lift (get_external_ip net parse_xml d')

  -- `GameClient::getAvailableGames`
  unfoldable pub get_available_games : Action (Option (List ServerGame))
  get_available_games = do
    d ← gets (λ s. s.directory)
    d' ← deref d
    lift (get_game_list net parse_xml d')

  module _ (rak : Rak) where
    -- `GameClient::startRakNet`
    unfoldable pub start_raknet : Bytes → ℕ → Action (Unit {0})
    start_raknet host port = do
      modify (λ s. record s {
        has_mesh = true;
        has_graph = true;
        startup_future = some (record { complete = false; code = future_ok });
      })
      if rak.started (port % 2 ^ 16)
          then (do
            call true (add_participant (rak.guid_of host (port % 2 ^ 16)))
            modify (λ s. record s { hostname = some host; port = pos port; has_peer = true }))
          else (do fail_start cant_register_client; raise (fatal "Error starting raknet"))

    -- The answer of the directory to `createGame`.
    unfoldable pub host_game : Option ServerGame → Action (Unit {0})
    host_game none = do fail_start cant_register_client; raise (fatal "Can't create game")
    host_game (some g) =
        modify (λ s. record s { the_game = some g; creator = true; has_dispatcher = true })

    -- `GameClient::startGame`
    unfoldable pub start_game : Option Bytes → ℕ → Action (Option Future)
    start_game host_name desired_port = do
      host ← resolve_host host_name
      port ← lift (find_port rak.port_in_use (2 ^ 16) desired_port)
      start_raknet host port
      let guid = rak.guid_of host (port % 2 ^ 16)
      d ← gets (λ s. s.directory)
      d' ← deref d
      created ← lift (create_game net parse_xml host (pos port) guid d')
      host_game created
      enter_game host port authenticated guid
      gets (λ s. s.startup_future)

    -- What follows `Connect`.
    unfoldable pub join_at : Bool → ServerGame → Bytes → ℕ → Bytes → Action (Option Future)
    join_at false g host port guid = do
      fail_start cant_register_client
      gets (λ s. s.startup_future)
    join_at true g host port guid = do
      modify (λ s. record s { the_game = some g; has_dispatcher = true })
      enter_game host port connected guid
      gets (λ s. s.startup_future)

    -- `GameClient::joinGame`; the host's port goes through a `short`, which `connecting` takes.
    unfoldable pub join_game : Option Bytes → ℕ → Option ServerGame → Action (Option Future)
    join_game host_name desired_port game = do
      host ← resolve_host host_name
      port ← lift (find_port rak.port_in_use (2 ^ 16) desired_port)
      start_raknet host port
      g ← deref game
      join_at (rak.connecting g.host_name g.host_port) g host port
          (rak.guid_of host (port % 2 ^ 16))
