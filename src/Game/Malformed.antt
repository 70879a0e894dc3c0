-- ===== src/Game/Malformed.antt =====
-- What one packet that does not decode does to a running client.
use easygametools.Base.{ℕ, ◌≡◌, refl, true, false, Option, none, some, List, [], ◌∷◌, ◌++◌}
use easygametools.Base.Text.{Bytes, strcmp_eq}
use easygametools.Base.Outcome.{Error, ok, err}
use easygametools.Xml.{Node}
use easygametools.Xml.ServerGame.{ServerGame}
use easygametools.Web.Request.{Internet}
use easygametools.Protocol.Packets.{Wire, decode_message}
use easygametools.Game.State.{Game, Player, Packet, execute, event_task, directory_client_error}
use easygametools.Game.Dispatch.{handle_protocol_message}
use easygametools.Game.Lifecycle.{stop_client}
use easygametools.Game.Stopped.{IsStopped, stop_client-other}
use easygametools.Game.Loop.{
  PacketKind, protocol_object, Round, handle_packet, handle_packets, run_round, run_rounds,
  is_caught, recover, run_loop,
}

-- The client when the error has been handed to the listener's task.
abbrev pub reported : Game → Game
reported s = record s { tasks = s.tasks ++ event_task directory_client_error none ∷ [] }

module _ (net : Internet) (parse_xml : Bytes → Option (List Node)) (w : Wire) where
  run_rounds-malformed :
      (p : Packet) (e : Error) (now later : ℕ) (ps : List (PacketKind × Packet)) (rs : List Round)
      (s : Game)
      → decode_message w p.content ≡ err e
      → s.has_peer ≡ true
      → run_rounds w
          (record { now = now; later = later; packets = (protocol_object, p) ∷ ps } ∷ rs)
          s
        ≡ (err e, s)
  unfolding run_rounds run_round handle_packets handle_packet handle_protocol_message
  run_rounds-malformed p e now later ps rs s bad peer = rw (peer, bad) refl

  pub recover-reported :
      (e : Error) (s : Game)
      → is_caught e ≡ true
      → s.has_pool ≡ true
      → recover net parse_xml e s ≡ stop_client net parse_xml (reported s)
  unfolding recover execute
  recover-reported e s caught pool = rw (caught, pool) refl

  -- A client that plays in another's game stops when one packet arrives that does not decode, whoever
  -- sent it, also a sender without a player: it leaves the game and drops all its players.
  pub run_loop-malformed :
      (p : Packet) (e : Error) (now later : ℕ) (ps : List (PacketKind × Packet)) (rs : List Round)
      (g : ServerGame) (me : Player) (host_guid : Bytes) (s : Game)
      → decode_message w p.content ≡ err e
      → is_caught e ≡ true
      → s.has_peer ≡ true
      → s.has_pool ≡ true
      → s.the_game ≡ some g
      → s.my_player ≡ some me
      → g.host_guid ≡ some host_guid
      → strcmp_eq me.client_guid host_guid ≡ false
      → ((run_loop net parse_xml w
            (record { now = now; later = later; packets = (protocol_object, p) ∷ ps } ∷ rs)
            s).0
          ≡ ok tt)
        × IsStopped
            (reported s)
            (run_loop net parse_xml w
              (record { now = now; later = later; packets = (protocol_object, p) ∷ ps } ∷ rs)
              s).1
  unfolding run_loop
  run_loop-malformed p e now later ps rs g me host_guid s bad caught peer pool plays is_me has_guid
        other =
      rw (run_rounds-malformed p e now later ps rs s bad peer, recover-reported e s caught pool)
        (stop_client-other net parse_xml g me host_guid (reported s) plays is_me has_guid other)
