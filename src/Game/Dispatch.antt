-- ===== src/Game/Dispatch.antt =====
-- `GameClient::handleProtocolMessage` of game_client/game_client/GameClient.cpp: which messages are
-- taken from whom.
use easygametools.Base.{false, Option, none, some}
use easygametools.Protocol.{
  ProtocolMessage, MessageId, challenge, challenge_response, challenge_accepted, new_host,
}
use easygametools.Protocol.Packets.{Wire, decode_message}
use easygametools.Game.State.{
  Player, new_player, Packet, Action, ◌>>=◌, ◌>>◌, pure, lift, gets, execute, connected,
  object_message, challenge_accepted_task, challenge_response_task, challenge_task, event_task,
  update_task,
}
use easygametools.Game.Network.{find_player}

-- The player that stands for a sender who is not in the game.
abbrev pub temp_player : Packet → Player
temp_player p = record new_player {
  connection_state = connected;
  client_guid = p.guid;
  host = some p.host;
  port = p.port;
}

-- A sender without a player in the game.
unfoldable pub dispatch_unknown : MessageId → ProtocolMessage → Packet → Action (Unit {0})
dispatch_unknown challenge_accepted m p = do
  me ← gets (λ s. s.my_player)
  execute (challenge_accepted_task m me (temp_player p))
dispatch_unknown challenge_response m p = do
  me ← gets (λ s. s.my_player)
  directory ← gets (λ s. s.directory)
  execute (challenge_response_task directory m me (temp_player p))
dispatch_unknown challenge m p = do
  me ← gets (λ s. s.my_player)
  execute (challenge_task m me (temp_player p))
dispatch_unknown _ m p = pure tt

abbrev update_on_new_host : MessageId → Action (Unit {0})
update_on_new_host new_host = do
  game ← gets (λ s. s.the_game)
  directory ← gets (λ s. s.directory)
  execute (update_task game directory false)
update_on_new_host _ = pure tt

-- A sender who has a player in the game.
unfoldable pub dispatch_known : MessageId → Packet → Action (Unit {0})
dispatch_known i p = do update_on_new_host i; execute (event_task object_message (some p))

unfoldable pub dispatch : Option Player → ProtocolMessage → Packet → Action (Unit {0})
dispatch none m p = dispatch_unknown m.message_id m p
dispatch (some from) m p = dispatch_known m.message_id p

-- `GameClient::handleProtocolMessage`
unfoldable pub handle_protocol_message : Wire → Packet → Action (Unit {0})
handle_protocol_message w p = do
  m ← lift (decode_message w p.content)
  from ← find_player p.guid
  dispatch from m p
