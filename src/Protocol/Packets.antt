-- ===== src/Protocol/Packets.antt =====
-- `createProtocolObjectMessage` and `decodeProtocolObjectMessage` of
-- game_client/game_client/GameClient.cpp.
use easygametools.Base.{
  ℕ, ◌≤◌, ◌<◌, ◌≡◌, Bool, false, Option, some, [], ◌∷◌, arith, ltb, ◌==◌, if◌then◌else◌,
}
use easygametools.Base.Text.{Bytes}
use easygametools.Base.Outcome.{Result, ok, err, fatal, protocol_error, unterminated, or_error}
use easygametools.Protocol.{ProtocolMessage}

-- The library that serialises messages, and `ID_USER_PACKET_ENUM` of RakNet, the first byte that is
-- free for a user. Parsing what was serialised gives the message back.
pub record Wire : Type 0 where
  pub serialize : ProtocolMessage → Bytes
  pub parse : Bytes → Option ProtocolMessage
  pub user_packet : ℕ
  pub parse-serialize : (m : ProtocolMessage) → parse (serialize m) ≡ some m

-- `GameClient::createProtocolObjectMessage`: the first byte of `PROTOCOL_OBJECT_MESSAGE_BUF` is
-- appended as a C string.
unfoldable pub create_message : Wire → ProtocolMessage → Bytes
create_message w m = if w.user_packet == 0 then w.serialize m else w.user_packet ∷ w.serialize m

-- `protocolMessageType != PROTOCOL_OBJECT_MESSAGE` is `false`: the byte is put into a `char`, which is
-- signed, and compared with the enumerator as an `int`.
unfoldable pub has_type : Wire → ℕ → Bool
has_type w byte = if ltb byte 128 then byte == w.user_packet else false

-- `GameClient::decodeProtocolObjectMessage`
unfoldable pub decode_message : Wire → Bytes → Result ProtocolMessage
unfolding has_type
decode_message w [] = err unterminated
decode_message w (byte ∷ content) =
    if has_type w byte
    then or_error (w.parse content) (protocol_error "Can't parse protocol message")
    else err (fatal "DecodeMessage: message has wrong protocol type")

-- A packet decodes to the message that it was made of, if RakNet's first user byte lies in the range
-- of a `char` that is not negative.
pub decode-create_message :
    (w : Wire) (m : ProtocolMessage)
    → 1 ≤ w.user_packet
    → w.user_packet < 128
    → decode_message w (create_message w m) ≡ ok m
unfolding decode_message create_message
decode-create_message w m lo hi = ground (arith, w.parse-serialize m)

-- If that byte is 128 or more, no packet is accepted at all, whatever its content.
decode_message-high :
    (w : Wire) (byte : ℕ) (content : Bytes)
    → 128 ≤ w.user_packet
    → decode_message w (byte ∷ content)
      ≡ err (fatal "DecodeMessage: message has wrong protocol type")
unfolding decode_message
decode_message-high w byte content high = ground arith
