-- ===== src/Game/Loop.antt =====
-- The network thread: `GameClient::run` of game_client/game_client/GameClient.cpp.
--
-- A round is what one turn of its loop meets: the two readings of the clock, and the packets that
-- `Receive` returns. A list of rounds ends where the thread is signalled.
use easygametools.Base.{
  ℕ, ◌+◌, ◌-◌, ◌*◌, ◌%◌, ◌^◌, Bool, true, false, Option, none, some, List, [], ◌∷◌, ltb,
  if◌then◌else◌,
}
use easygametools.Base.Int.{ℤ, pos, negsuc}
use easygametools.Base.Text.{Bytes, strcmp_eq}
use easygametools.Base.Table.{remove, bytes_eq}
use easygametools.Base.Outcome.{
  Result, Error, ok, err, fatal, protocol_error, task_rejected, login_failed, null_pointer,
  uninitialised, or_error,
}
use easygametools.Xml.{Node}
use easygametools.Xml.User.{User}
use easygametools.Xml.ServerGame.{ServerGame}
use easygametools.Web.Request.{Internet}
use easygametools.Protocol.{proto_challenge_message}
use easygametools.Protocol.Packets.{Wire}
use easygametools.Game.State.{
  Packet, connection_accepted, new_connection, connection_lost, connection_terminated, host_changed,
  directory_client_error, startup_failed, future_ok, adopt_task, update_task, event_task, Action,
  ◌>>=◌, ◌>>◌, pure, raise, lift, gets, modify, deref, execute,
}
use easygametools.Game.Network.{send_protocol_object}
use easygametools.Game.Dispatch.{handle_protocol_message}
use easygametools.Game.Lifecycle.{stop_client, failed_future}

-- `packet->data[0]`, with what `IsHostSystem` answers where it is asked; `link_lost` is
-- `ID_CONNECTION_LOST`.
pub data PacketKind : Type 0 where
  disconnection_notification new_incoming_connection connection_request_accepted : PacketKind
  no_free_incoming_connections link_lost protocol_object other_packet : PacketKind
  fcm2_new_host : Bool → PacketKind

pub record Round : Type 0 where
  pub now : ℕ
  pub later : ℕ
  pub packets : List (PacketKind × Packet)

-- `lastUpdated -= ((8 - n) * 5) * 1000`, in 32 bits.
unfoldable pub lower : ℤ → ℕ → ℕ
lower (pos n) last =
    if ltb 8 n then (last + (n - 8) * 5000) % 2 ^ 32 else (last + 2 ^ 32 - (8 - n) * 5000) % 2 ^ 32
lower (negsuc n) last = (last + 2 ^ 32 - (n + 9) * 5000 % 2 ^ 32) % 2 ^ 32

-- `clock->Update() - lastUpdated > DIRECTORYCLIENT_UPDATE_DELAY`, of an `unsigned long`.
unfoldable pub is_due : ℕ → ℕ → Bool
is_due now last = ltb 45000 ((now + 2 ^ 32 - last) % 2 ^ 32)

-- The directory is to be asked sooner.
unfoldable pub hurry : Action (Unit {0})
hurry = do
  game ← gets (λ s. s.the_game)
  g ← deref game
  modify (λ s. record s { last_updated = lower g.number_of_players s.last_updated })

unfoldable pub drop_player : Bytes → Action (Unit {0})
drop_player guid = modify (λ s. record s { game_players = remove guid s.game_players })

abbrev adopt_on : Bool → Action (Unit {0})
adopt_on false = pure tt
adopt_on true = do
  game ← gets (λ s. s.the_game)
  g ← deref game
  s ← gets (λ s. s)
  execute (adopt_task s.directory g.game_id s.hostname s.port s.creator)

-- `fcm2->IsHostSystem()` on a null pointer is undefined behaviour.
abbrev mesh_of : Bool → Action (Unit {0})
mesh_of true = pure tt
mesh_of false = lift (err null_pointer)

module _ (w : Wire) where
  -- The switch of `run`.
  unfoldable pub handle_packet : PacketKind → Packet → Action (Unit {0})
  handle_packet disconnection_notification p = do
    drop_player p.guid
    execute (event_task connection_lost none)
    hurry
  handle_packet new_incoming_connection p = do
    execute (event_task new_connection none)
    hurry
    user ← gets (λ s. s.my_user)
    u ← deref user
    i ← lift (or_error u.user_id uninitialised)
    send_protocol_object w (proto_challenge_message i) p.guid
  handle_packet connection_request_accepted p = execute (event_task connection_accepted none)
  handle_packet no_free_incoming_connections p = modify (λ s. record s { the_game = none })
  handle_packet link_lost p = do
    drop_player p.guid
    execute (event_task connection_terminated none)
    hurry
  handle_packet (fcm2_new_host is_host) p = do
    mesh ← gets (λ s. s.has_mesh)
    mesh_of mesh
    adopt_on is_host
    execute (event_task host_changed none)
  handle_packet protocol_object p = handle_protocol_message w p
  handle_packet other_packet p = pure tt

  unfoldable pub handle_packets : List (PacketKind × Packet) → Action (Unit {0})
  handle_packets [] = pure tt
  handle_packets ((k, p) ∷ ps) = do handle_packet k p; handle_packets ps

  abbrev pub receive_packets : Bool → List (PacketKind × Packet) → Action (Unit {0})
  receive_packets false ps = pure tt
  receive_packets true ps = handle_packets ps

-- The update task, for the host or for another client, and the time of it.
unfoldable pub schedule_update : ServerGame → ℕ → Action (Unit {0})
schedule_update g later = do
  host_guid ← lift (or_error g.host_guid null_pointer)
  player ← gets (λ s. s.my_player)
  me ← deref player
  d ← gets (λ s. s.directory)
  execute (update_task (some g) d (strcmp_eq host_guid me.client_guid))
  modify (λ s. record s { last_updated = later })

-- Without a host user the game is in transition, and the next update comes after 15 seconds.
abbrev update_hosted : Option User → ServerGame → ℕ → Action (Unit {0})
update_hosted (some u) g later = schedule_update g later
update_hosted none g later =
    modify (λ s. record s { last_updated = (later + 2 ^ 32 - 30000) % 2 ^ 32 })

abbrev update_known : Option ServerGame → Option User → ℕ → Action (Unit {0})
update_known (some g) (some u) later = update_hosted g.host_user g later
update_known _ _ later = pure tt

abbrev update_if : Bool → ℕ → Action (Unit {0})
update_if false later = pure tt
update_if true later = do
  game ← gets (λ s. s.the_game)
  user ← gets (λ s. s.my_user)
  update_known game user later

-- The end of a turn of the loop.
unfoldable pub tick : ℕ → ℕ → Action (Unit {0})
tick now later = do last ← gets (λ s. s.last_updated); update_if (is_due now last) later

module _ (w : Wire) where
  unfoldable pub run_round : Round → Action (Unit {0})
  run_round r = do
    peer ← gets (λ s. s.has_peer)
    receive_packets w peer r.packets
    tick r.now r.later

  unfoldable pub run_rounds : List Round → Action (Unit {0})
  run_rounds [] = pure tt
  run_rounds (r ∷ rs) = do run_round r; run_rounds rs

-- The exceptions that derive from `FatalException`.
unfoldable pub is_caught : Error → Bool
is_caught (fatal m) = true
is_caught (protocol_error m) = true
is_caught (task_rejected m) = true
is_caught (login_failed m) = true
is_caught _ = false

module _ (net : Internet) (parse_xml : Bytes → Option (List Node)) where
  -- `catch (FatalException*)`
  unfoldable pub recover : Error → Action (Unit {0})
  recover e =
      if is_caught e
      then (do execute (event_task directory_client_error none); stop_client net parse_xml)
      else raise e

  abbrev pub catch_fatal : Result (Unit {0}) → Action (Unit {0})
  catch_fatal (ok a) = pure a
  catch_fatal (err e) = recover e

  unfoldable pub run_loop : Wire → List Round → Action (Unit {0})
  run_loop w rs s = let (r, t) = run_rounds w rs s in catch_fatal r t

  -- `GameClient::run`, by the first reading of the clock and by whether the thread pool starts.
  unfoldable pub run : Wire → ℕ → Bool → List Round → Action (Unit {0})
  run w now false rs = do
    modify (λ s. record s { last_updated = now; has_pool = true })
    stop_client net parse_xml
    modify (λ s. record s { error_state = startup_failed })
    future ← gets (λ s. s.startup_future)
    _ ← deref future
    modify (λ s. record s { startup_future = some failed_future })
    raise (fatal "Error creating thread pool")
  run w now true rs = do
    modify (λ s. record s { last_updated = now; has_pool = true })
    future ← gets (λ s. s.startup_future)
    _ ← deref future
    modify (λ s. record s { startup_future = some (record { complete = true; code = future_ok }) })
    run_loop w rs
