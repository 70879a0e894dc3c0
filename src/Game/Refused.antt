-- ===== src/Game/Refused.antt =====
-- A client whom a full game has refused.
use easygametools.Base.{ℕ, ◌≡◌, refl, ap, Bool, true, false, Option, none, List, [], ◌∷◌, ◌++◌}
use easygametools.Base.Text.{Bytes}
use easygametools.Base.Outcome.{Result, ok, err, fatal}
use easygametools.Base.Table.{remove, bytes_eq}
use easygametools.Xml.{Node}
use easygametools.Web.Request.{Internet}
use easygametools.Protocol.Packets.{Wire}
use easygametools.Game.State.{
  Game, Packet, after, execute, event_task, connection_lost, new_connection, connection_terminated,
}
use easygametools.Game.Stopped.{IsStopped, stop_client-idle}
use easygametools.Game.Malformed.{reported, recover-reported}
use easygametools.Game.Loop.{
  PacketKind, disconnection_notification, new_incoming_connection, link_lost,
  connection_request_accepted, protocol_object, other_packet, fcm2_new_host,
  no_free_incoming_connections, Round, handle_packet, handle_packets, hurry, drop_player, run_round,
  run_rounds, receive_packets, tick, is_caught, run_loop,
}

-- A client has come or gone.
abbrev pub IsConnection : PacketKind → Type 0
IsConnection disconnection_notification = Unit {0}
IsConnection new_incoming_connection = Unit {0}
IsConnection link_lost = Unit {0}
IsConnection _ = ⊥

-- What the packet leaves in a client without a game, before the null pointer.
abbrev pub told : PacketKind → Packet → Game → Game
told disconnection_notification q s = record s {
  the_game = none;
  game_players = remove q.guid s.game_players;
  tasks = s.tasks ++ event_task connection_lost none ∷ [];
}
told new_incoming_connection q s = record s {
  the_game = none;
  tasks = s.tasks ++ event_task new_connection none ∷ [];
}
told link_lost q s = record s {
  the_game = none;
  game_players = remove q.guid s.game_players;
  tasks = s.tasks ++ event_task connection_terminated none ∷ [];
}
told _ q s = s

told-idle : (k : PacketKind) (q : Packet) (s : Game) → IsConnection k → (told k q s).the_game ≡ none
told-idle disconnection_notification q s h = refl
told-idle new_incoming_connection q s h = refl
told-idle link_lost q s h = refl
told-idle connection_request_accepted q s h = elim h [ ]
told-idle no_free_incoming_connections q s h = elim h [ ]
told-idle protocol_object q s h = elim h [ ]
told-idle other_packet q s h = elim h [ ]
told-idle (fcm2_new_host _) q s h = elim h [ ]

told-pool :
    (k : PacketKind) (q : Packet) (s : Game) → s.has_pool ≡ true → (told k q s).has_pool ≡ true
told-pool disconnection_notification q s pool = pool
told-pool new_incoming_connection q s pool = pool
told-pool link_lost q s pool = pool
told-pool connection_request_accepted q s pool = pool
told-pool no_free_incoming_connections q s pool = pool
told-pool protocol_object q s pool = pool
told-pool other_packet q s pool = pool
told-pool (fcm2_new_host _) q s pool = pool

-- The exception of a null pointer, in the state `t`.
abbrev lost_in : Game → Result (Unit {0}) × Game
lost_in t = (err (fatal "NullPointerException"), t)

receive_packets-lost :
    (w : Wire) (b : Bool) (ps : List (PacketKind × Packet)) (s t : Game)
    → b ≡ true
    → handle_packets w ps s ≡ lost_in t
    → receive_packets w b ps s ≡ lost_in t
receive_packets-lost w true ps s t h lost = lost
receive_packets-lost w false ps s t h lost = cc

module _ (w : Wire) where
  handle_packet-told :
      (k : PacketKind) (q : Packet) (s : Game)
      → IsConnection k
      → s.has_pool ≡ true
      → handle_packet w k q (record s { the_game = none }) ≡ lost_in (told k q s)
  unfolding handle_packet hurry drop_player execute
  handle_packet-told disconnection_notification q s h pool = rw pool refl
  handle_packet-told new_incoming_connection q s h pool = rw pool refl
  handle_packet-told link_lost q s h pool = rw pool refl
  handle_packet-told connection_request_accepted q s h pool = elim h [ ]
  handle_packet-told no_free_incoming_connections q s h pool = elim h [ ]
  handle_packet-told protocol_object q s h pool = elim h [ ]
  handle_packet-told other_packet q s h pool = elim h [ ]
  handle_packet-told (fcm2_new_host _) q s h pool = elim h [ ]

  run_rounds-told :
      (k : PacketKind) (p q : Packet) (now later : ℕ) (ps : List (PacketKind × Packet))
      (rs : List Round) (s : Game)
      → IsConnection k
      → s.has_peer ≡ true
      → s.has_pool ≡ true
      → run_rounds w
          (record {
            now = now;
            later = later;
            packets = (no_free_incoming_connections, p) ∷ (k, q) ∷ ps;
          }
            ∷ rs)
          s
        ≡ lost_in (told k q s)
  unfolding run_rounds run_round handle_packets handle_packet
  run_rounds-told k p q now later ps rs s h peer pool =
      let s' : Game = record s { the_game = none } in
      let pair = (no_free_incoming_connections, p) ∷ (k, q) ∷ ps in
      let received : receive_packets w s.has_peer pair s ≡ lost_in (told k q s) =
        receive_packets-lost w s.has_peer pair s (told k q s) peer
          (ap (λ r. after r.0 (λ _. handle_packets w ps) r.1) (handle_packet-told k q s h pool)) in
      ap
        (λ r.
          let turn = after r.0 (λ _. tick now later) r.1 in
          after turn.0 (λ _. run_rounds w rs) turn.1)
        received

module _ (net : Internet) (parse_xml : Bytes → Option (List Node)) (w : Wire) where
  -- A client that has a peer and a thread pool, gets the packet that a full game refuses it as the first of
  -- a turn, and one that tells of a client that came or went directly behind it, stops at that second
  -- packet: it is reset, as after the error has been handed to the listener's task, and neither a later
  -- packet nor a later turn is handled.
  pub run_loop-refused :
      (k : PacketKind) (p q : Packet) (now later : ℕ) (ps : List (PacketKind × Packet))
      (rs : List Round) (s : Game)
      → IsConnection k
      → s.has_peer ≡ true
      → s.has_pool ≡ true
      → ((run_loop net parse_xml w
            (record {
              now = now;
              later = later;
              packets = (no_free_incoming_connections, p) ∷ (k, q) ∷ ps;
            }
              ∷ rs)
            s).0
          ≡ ok tt)
        × IsStopped
            (reported (told k q s))
            (run_loop net parse_xml w
              (record {
                now = now;
                later = later;
                packets = (no_free_incoming_connections, p) ∷ (k, q) ∷ ps;
              }
                ∷ rs)
              s).1
  unfolding run_loop is_caught
  run_loop-refused k p q now later ps rs s h peer pool =
      rw
        (
          run_rounds-told w k p q now later ps rs s h peer pool,
          recover-reported net parse_xml w (fatal "NullPointerException") (told k q s) refl
              (told-pool k q s pool),
        )
        (stop_client-idle net parse_xml (reported (told k q s)) (told-idle k q s h))
