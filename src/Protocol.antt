-- ===== src/Protocol.antt =====
-- The messages between clients: game_client/protoc/*.proto, their constructors in
-- game_client/game_client/ProtocolFactory.h, and the packets that
-- game_client/game_client/GameClient.cpp makes of them.
--
-- The classes that protoc generates are not modelled: a message is the record of its fields, and its
-- serialisation is a parameter.
pub mod Packets
pub mod Examples
use easygametools.Base.{Option, none, some, ℕ, []}
use easygametools.Base.Int.{ℤ, pos, bits}
use easygametools.Base.Text.{Bytes}
use easygametools.Base.Outcome.{Result, ok, null_pointer, uninitialised, ◌>>=◌, or_error}
use easygametools.Xml.User.{User}

pub data MessageId : Type 0 where
  challenge challenge_response challenge_accepted new_host user : MessageId

-- `protocol::User`
pub record ProtoUser : Type 0 where
  pub user_id : ℤ
  pub username : Bytes

-- `GetExtension` of an extension that is not there.
abbrev pub or_default_user : Option ProtoUser → ProtoUser
or_default_user none = record { user_id = pos 0; username = [] }
or_default_user (some u) = u

-- `protocol::ProtocolMessage` with the extensions 101 to 105.
pub record ProtocolMessage : Type 0 where
  pub message_id : MessageId
  pub user_extension : Option ProtoUser
  pub challenge_extension : Option ℤ
  pub response_extension : Option ProtoUser
  pub accepted_extension : Option ProtoUser
  pub new_host_extension : Option ℤ

-- `new protocol::ProtocolMessage()`, and `set_messageid`
abbrev pub bare_message : MessageId → ProtocolMessage
bare_message i = record {
  message_id = i;
  user_extension = none;
  challenge_extension = none;
  response_extension = none;
  accepted_extension = none;
  new_host_extension = none;
}

-- `ProtocolFactory::getProtoChallengeMessage`; the field is a `uint64`.
abbrev pub proto_challenge_message : ℤ → ProtocolMessage
proto_challenge_message i = record (bare_message challenge) {
  challenge_extension = some (pos (bits 64 i));
}

-- `ProtocolFactory::getUserMessage`
abbrev pub user_message : ℤ → Bytes → ProtocolMessage
user_message i name = record (bare_message user) {
  user_extension = some (record { user_id = i; username = name });
}

-- The two fields of a user that go into a message: an unset id or a null name is undefined behaviour.
unfoldable pub proto_user : User → Result ProtoUser
proto_user u = do
  i ← or_error u.user_id uninitialised
  name ← or_error u.username null_pointer
  ok (record { user_id = i; username = name })

-- `ProtocolFactory::getProtoChallengeResponseMessage`
unfoldable pub proto_challenge_response_message : User → Result ProtocolMessage
unfolding proto_user
proto_challenge_response_message u = do
  details ← proto_user u
  ok (record (bare_message challenge_response) { response_extension = some details })

-- `ProtocolFactory::getProtoChallengeAcceptedMessage`
unfoldable pub proto_challenge_accepted_message : User → Result ProtocolMessage
unfolding proto_user
proto_challenge_accepted_message u = do
  details ← proto_user u
  ok (record (bare_message challenge_accepted) { accepted_extension = some details })

-- `ProtocolFactory::getProtoNewHostMessage`; the field is a `uint64`.
abbrev pub proto_new_host_message : ℤ → ProtocolMessage
proto_new_host_message game_id = record (bare_message new_host) {
  new_host_extension = some (pos (bits 64 game_id));
}
