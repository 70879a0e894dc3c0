-- ===== src/Game/Handlers.antt =====
-- The message handlers of game_client/game_client/GameClient.cpp, as the thread pool runs them.
use easygametools.Base.{◌-◌, ◌%◌, ◌^◌, not, Option, none, some, List, ltb, if◌then◌else◌, length}
use easygametools.Base.Int.{ℤ, pos, negsuc, signed32}
use easygametools.Base.Text.{Bytes, strcmp_eq}
use easygametools.Base.Table.{insert, bytes_eq}
use easygametools.Base.Outcome.{
  Result, ok, err, buffer_overflow, null_pointer, uninitialised, or_error,
}
use easygametools.Base.Outcome
use easygametools.Xml.{Node}
use easygametools.Xml.User.{User}
use easygametools.Web.Request.{Internet, c_string}
use easygametools.Directory.{Directory, validate_user}
use easygametools.Protocol.{
  ProtocolMessage, ProtoUser, or_default_user, proto_challenge_response_message,
  proto_challenge_accepted_message,
}
use easygametools.Protocol.Packets.{Wire}
use easygametools.Game.State.{
  Player, Task, challenge_accepted_task, challenge_response_task, challenge_task, Action, ◌>>=◌,
  ◌>>◌, pure, lift, gets, modify, deref, authenticated,
}
use easygametools.Game.Network.{send_protocol_object, boot_player, add_player}

-- `(long)` of a 64-bit integer.
unfoldable pub to_long : ℤ → ℤ
to_long (pos n) = signed32 (n % 2 ^ 32)
to_long (negsuc n) = signed32 (2 ^ 32 - 1 - n % 2 ^ 32)

-- `char usernameBuf[255]`: the copy of a name, closed by a NUL and read as a C string.
unfoldable pub copy_username : Bytes → Result Bytes
unfolding c_string
copy_username name = if ltb (length name) 255 then ok (c_string name) else err buffer_overflow

-- The user that a message carries.
unfoldable pub user_of : ProtoUser → Result User
unfolding to_long copy_username
user_of u =
    Outcome.◌>>=◌ (copy_username u.username)
      λ name. ok (record { user_id = some (to_long u.user_id); username = some name })

-- `from->setUser(…)`, `from->setConnectionState(AUTHENTICATED)`, and the entry in `currentPlayers`.
abbrev pub admitted : User → Player → Player
admitted u from = record from { user = some u; connection_state = authenticated }

unfoldable pub admit : User → Player → Action (Unit {0})
admit u from = modify (λ s. record s {
  game_players = insert from.client_guid (some (admitted u from)) s.game_players;
})

-- `ChallengeAcceptedMessageHandler::handleMessage`
unfoldable pub handle_challenge_accepted : ProtocolMessage → Player → Action (Unit {0})
handle_challenge_accepted m from = do
  u ← lift (user_of (or_default_user m.accepted_extension))
  admit u from

-- `ChallengeMessageHandler::handleMessage`
unfoldable pub handle_challenge : Wire → Option Player → Player → Action (Unit {0})
handle_challenge w me from = do
  me' ← deref me
  u ← deref me'.user
  response ← lift (proto_challenge_response_message u)
  send_protocol_object w response from.client_guid

module _ (w : Wire) where
  -- The mesh is told of the player, and the player of us.
  unfoldable pub welcome : Option Player → Player → Action (Unit {0})
  welcome me from = do
    add_player from
    me' ← deref me
    u ← deref me'.user
    accepted ← lift (proto_challenge_accepted_message u)
    send_protocol_object w accepted from.client_guid

  -- What is done with a user whom the directory knows, by `strcmp` of the two names.
  unfoldable pub admit_validated : User → User → Option Player → Player → Action (Unit {0})
  admit_validated directory_user claimed me from = do
    known ← lift (or_error directory_user.username null_pointer)
    name ← lift (or_error claimed.username null_pointer)
    if not (strcmp_eq known name)
        then boot_player from
        else do admit directory_user from; welcome me from

  unfoldable pub answer_validation : Option User → User → Option Player → Player → Action (Unit {0})
  answer_validation none claimed me from = boot_player from
  answer_validation (some directory_user) claimed me from =
      admit_validated directory_user claimed me from

module _ (net : Internet) (parse_xml : Bytes → Option (List Node)) (w : Wire) where
  -- `ChallengeResponseMessageHandler::handleMessage`, with the directory client that it was made with.
  unfoldable pub handle_challenge_response :
      Option Directory → ProtocolMessage → Option Player → Player → Action (Unit {0})
  handle_challenge_response directory m me from = do
    claimed ← lift (user_of (or_default_user m.response_extension))
    d ← deref directory
    game ← gets (λ s. s.the_game)
    g ← deref game
    user_id ← lift (or_error claimed.user_id uninitialised)
    directory_user ← lift (validate_user net parse_xml user_id g.game_id d)
    answer_validation w directory_user claimed me from

  -- The task as the pool runs it, for the three handlers.
  unfoldable pub run_handler : Task → Action (Unit {0})
  run_handler (challenge_accepted_task m me from) = handle_challenge_accepted m from
  run_handler (challenge_response_task directory m me from) =
      handle_challenge_response directory m me from
  run_handler (challenge_task m me from) = handle_challenge w me from
  run_handler _ = pure tt
