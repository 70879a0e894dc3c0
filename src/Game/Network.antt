-- ===== src/Game/Network.antt =====
-- What the client sends, and whom it bans: `sendProtocolObject`, `sendProtocolMessage`, `bootPlayer` and
-- `addPlayer` of game_client/game_client/GameClient.cpp.
use easygametools.Base.{Option, none, some}
use easygametools.Base.Text.{Bytes}
use easygametools.Base.Table.{lookup, insert, remove, bytes_eq}
use easygametools.Base.Outcome.{ok}
use easygametools.Protocol.{ProtocolMessage}
use easygametools.Protocol.Packets.{Wire, create_message}
use easygametools.Game.State.{
  Player, Action, ◌>>=◌, ◌>>◌, gets, modify, call, send_to, broadcast, add_participant,
  add_to_ban_list, cancel_connection_attempt, close_connection,
}

-- `GameClient::sendProtocolMessage`, to one client, or to all of them.
unfoldable pub send_protocol_message : Bytes → Option Bytes → Action (Unit {0})
send_protocol_message content (some guid) = do
  peer ← gets (λ s. s.has_peer)
  call peer (send_to guid content)
send_protocol_message content none = do peer ← gets (λ s. s.has_peer); call peer (broadcast content)

-- `GameClient::sendProtocolObject`
unfoldable pub send_protocol_object : Wire → ProtocolMessage → Bytes → Action (Unit {0})
unfolding send_protocol_message
send_protocol_object w m guid = send_protocol_message (create_message w m) (some guid)

-- `gamePlayers[guid]`, which makes an entry with a null pointer where there is none.
unfoldable pub find_player : Bytes → Action (Option Player)
find_player guid s = elim (lookup guid s.game_players) [
  | none ↦ (ok none, record s { game_players = insert guid none s.game_players })
  | some p ↦ (ok p, s)
]

abbrev remove_found : Bytes → Option Player → Action (Unit {0})
remove_found guid none = modify (λ s. s)
remove_found guid (some p) = modify (λ s. record s { game_players = remove guid s.game_players })

-- The three calls of RakNet at the end of `bootPlayer`.
unfoldable pub ban : Bytes → Action (Unit {0})
ban guid = do
  peer ← gets (λ s. s.has_peer)
  call peer (add_to_ban_list guid)
  call peer (cancel_connection_attempt guid)
  call peer (close_connection guid)

-- `GameClient::bootPlayer`
unfoldable pub boot_player : Player → Action (Unit {0})
boot_player p = do
  found ← find_player p.client_guid
  remove_found p.client_guid found
  ban p.client_guid

-- `GameClient::addPlayer`
unfoldable pub add_player : Player → Action (Unit {0})
add_player p = do mesh ← gets (λ s. s.has_mesh); call mesh (add_participant p.client_guid)
