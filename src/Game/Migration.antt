-- ===== src/Game/Migration.antt =====
-- A new host takes the game over, and tells the others.
use mathlib.Core.List.{append_assoc}
use easygametools.Base.{
  ◌≤◌, ◌<◌, ◌≡◌, refl, ap, ◌∙◌, true, false, Option, some, List, [], ◌∷◌, ◌++◌,
}
use easygametools.Base.Int.{ℤ}
use easygametools.Base.Text.{Bytes}
use easygametools.Base.Table.{lookup, bytes_eq}
use easygametools.Base.Outcome.{ok}
use easygametools.Xml.{Node}
use easygametools.Xml.ServerGame.{ServerGame}
use easygametools.Web.Request.{Internet}
use easygametools.Directory.{Directory, adopt_game}
use easygametools.Protocol.{ProtocolMessage, MessageId, new_host, proto_new_host_message}
use easygametools.Protocol.Packets.{Wire, create_message, decode_message, decode-create_message}
use easygametools.Game.State.{
  Game, Player, Packet, broadcast, execute, update_task, event_task, object_message,
}
use easygametools.Game.Network.{send_protocol_message, find_player}
use easygametools.Game.Dispatch.{handle_protocol_message, dispatch, dispatch_known}
use easygametools.Game.Lifecycle.{Rak, update_game}
use easygametools.Game.Tasks.{adopt, announce, run_adopt_task, to_port}

find_player-some :
    (guid : Bytes) (from : Player) (s : Game)
    → lookup guid s.game_players ≡ some (some from)
    → find_player guid s ≡ (ok (some from), s)
unfolding find_player
find_player-some guid from s h = rw (h, find_player) refl

dispatch_known-new_host :
    (i : MessageId) (p : Packet) (s : Game)
    → i ≡ new_host
    → s.has_pool ≡ true
    → (dispatch_known i p s).1.tasks
      ≡ s.tasks
        ++ update_task s.the_game s.directory false ∷ event_task object_message (some p) ∷ []
unfolding dispatch_known execute
dispatch_known-new_host i p s is_new pool =
    rw (is_new, pool) (append_assoc s.tasks (update_task s.the_game s.directory false ∷ []) _)

takes_new_host :
    (w : Wire) (m : ProtocolMessage) (p : Packet) (from : Player) (s : Game)
    → decode_message w p.content ≡ ok m
    → m.message_id ≡ new_host
    → lookup p.guid s.game_players ≡ some (some from)
    → s.has_pool ≡ true
    → (handle_protocol_message w p s).1.tasks
      ≡ s.tasks
        ++ update_task s.the_game s.directory false ∷ event_task object_message (some p) ∷ []
unfolding handle_protocol_message dispatch
takes_new_host w m p from s good is_new known pool =
    rw (good, find_player-some p.guid from s known)
      (dispatch_known-new_host m.message_id p s is_new pool)

module _ (net : Internet) (parse_xml : Bytes → Option (List Node)) (rak : Rak) (w : Wire) where
  run_adopt_task-announces :
      (d : Directory) (g adopted : ServerGame) (host : Bytes) (port : ℤ) (s : Game)
      → s.the_game ≡ some g
      → s.has_peer ≡ true
      → adopt_game net parse_xml g.game_id host port (rak.guid_of host (to_port port)) d
        ≡ ok adopted
      → run_adopt_task net parse_xml rak w (some d) (some host) port false s ≡ (
        ok tt,
        record s {
          the_game = some adopted;
          calls =
              s.calls ++ broadcast (create_message w (proto_new_host_message adopted.game_id)) ∷ [];
        },
      )
  unfolding run_adopt_task adopt announce send_protocol_message update_game
  run_adopt_task-announces d g adopted host port s plays peer done = simp (plays, peer, done) refl

  -- A new host that did not create the game adopts it at the directory, plays the record that comes
  -- back, and tells everyone of it. A client that has a player for the new host takes that packet, asks
  -- the directory for the record, and tells its listener.
  pub run_adopt_task-takes_over :
      (d : Directory) (g adopted : ServerGame) (host : Bytes) (port : ℤ) (p : Packet)
      (from : Player) (s other : Game)
      → 1 ≤ w.user_packet
      → w.user_packet < 128
      → s.the_game ≡ some g
      → s.has_peer ≡ true
      → adopt_game net parse_xml g.game_id host port (rak.guid_of host (to_port port)) d
        ≡ ok adopted
      → p.content ≡ create_message w (proto_new_host_message adopted.game_id)
      → lookup p.guid other.game_players ≡ some (some from)
      → other.has_pool ≡ true
      → (run_adopt_task net parse_xml rak w (some d) (some host) port false s ≡ (
        ok tt,
        record s {
          the_game = some adopted;
          calls =
              s.calls ++ broadcast (create_message w (proto_new_host_message adopted.game_id)) ∷ [];
        },
      ))
        × ((handle_protocol_message w p other).1.tasks
            ≡ other.tasks
              ++ update_task other.the_game other.directory false
                ∷ event_task object_message (some p)
                ∷ [])
  run_adopt_task-takes_over d g adopted host port p from s other lo hi plays peer done sent known
        pool =
      (
        run_adopt_task-announces d g adopted host port s plays peer done,
        takes_new_host w (proto_new_host_message adopted.game_id) p from other
            (ap (decode_message w) sent
              ∙ decode-create_message w (proto_new_host_message adopted.game_id) lo hi)
            refl known pool,
      )
