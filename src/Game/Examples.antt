-- ===== src/Game/Examples.antt =====
-- Runs of the message handlers.
use easygametools.Base.{true, some, none, [], ◌∷◌, ◌≡◌, refl, arith}
use easygametools.Base.Int.{pos}
use easygametools.Base.Text.{codes}
use easygametools.Base.Decimal.{atol, atol_signed, scan_digits, print_int}
use easygametools.Base.Table.{lookup, insert}
use easygametools.Base.Outcome.{ok}
use easygametools.Xml.{is_blank, node_name, copy_name, read_id}
use easygametools.Xml.User.{User, load_user, load_user_loop, user_node, user_text, user_element}
use easygametools.Xml.ServerGame.{new_server_game}
use easygametools.Web.Codec.{encode, encode_char, is_ordinary_char, print_hex}
use easygametools.Web.Form.{put_variable, is_duplicate_var, has_var, same_name}
use easygametools.Web.Body.{read_body, to_read}
use easygametools.Web.Request.{
  snprintf, send_request, request_of, form_action, method_of, script_with, headers_of, post_headers,
  receive, c_string,
}
use easygametools.Directory.{
  path_of, create_web_request, is_ok_status, read_user, read_response, validate_user,
}
use easygametools.Directory.Examples.{server, user_nodes, local, bob}
use easygametools.Protocol.{
  ProtocolMessage, ProtoUser, bare_message, challenge_response, challenge_accepted, proto_user,
  or_default_user, proto_challenge_accepted_message,
}
use easygametools.Protocol.Packets.{create_message, decode_message, decode-create_message}
use easygametools.Protocol.Examples.{wire}
use easygametools.Game.State.{Game, Player, Packet, new_player, error_ok, challenge_accepted_task}
use easygametools.Game.Network.{send_protocol_object, send_protocol_message, add_player}
use easygametools.Game.Handlers.{
  user_of, copy_username, to_long, admit, admitted, welcome, admit_validated, answer_validation,
  handle_challenge_response, handle_challenge_accepted,
}
use easygametools.Game.Dispatch.{handle_protocol_message, temp_player}
use easygametools.Game.Players.{player_at}
use easygametools.Game.Admission.{IsValidated, handle_challenge_response-IsValidated}
use easygametools.Game.Gate.{IsGated, handle_protocol_message-IsGated, accept_unasked}

abbrev pub carol : User
carol = record { user_id = some (pos 7); username = some (codes "carol") }

-- A client in a game of its own.
abbrev pub hosting : Game
hosting = record {
  directory = some local;
  the_game = some (record new_server_game { game_id = pos 5 });
  my_user = some carol;
  has_peer = true;
  has_mesh = true;
  has_graph = true;
  last_updated = 0;
  error_state = error_ok;
  has_listener = true;
  startup_future = none;
  has_dispatcher = true;
  has_pool = true;
  hostname = none;
  port = pos 50000;
  my_player = some (record new_player { user = some carol });
  game_players = [];
  creator = true;
  tasks = [];
  calls = [];
  events = [];
}

abbrev claims_bob : ProtoUser
claims_bob = record { user_id = pos 42; username = codes "bob" }

abbrev response : ProtocolMessage
response = record (bare_message challenge_response) { response_extension = some claims_bob }

abbrev accepted : ProtocolMessage
accepted = record (bare_message challenge_accepted) { accepted_extension = some claims_bob }

abbrev packet : ProtocolMessage → Packet
packet m = record {
  guid = codes "99";
  host = codes "10.0.0.2";
  port = pos 50001;
  content = create_message (wire 100) m;
}

pub nobody : player_at (codes "99") hosting ≡ none
unfolding lookup
nobody = refl

abbrev sender : Player
sender = temp_player (packet response)

bob_comes :
    player_at
      (codes "99")
      (handle_challenge_response server user_nodes
        (wire 100)
        (some local)
        response
        hosting.my_player
        sender
        hosting).1
    ≡ some (admitted bob sender)
unfolding handle_challenge_response user_of copy_username to_long validate_user path_of
    create_web_request put_variable is_duplicate_var has_var same_name snprintf send_request
    request_of form_action encode encode_char is_ordinary_char print_hex method_of script_with
    headers_of post_headers receive c_string read_body to_read is_ok_status read_user read_response
    atol atol_signed scan_digits lookup load_user load_user_loop user_node user_text user_element
    is_blank node_name copy_name read_id answer_validation admit_validated admit welcome add_player
    proto_challenge_accepted_message proto_user send_protocol_object send_protocol_message insert
    print_int
bob_comes = refl

handle_challenge_response-IsValidated_example :
    IsValidated server user_nodes (some local) response sender hosting (admitted bob sender)
handle_challenge_response-IsValidated_example =
    handle_challenge_response-IsValidated server user_nodes (wire 100) (some local) response
      hosting.my_player sender (admitted bob sender) hosting nobody bob_comes

handle_protocol_message-IsGated_example :
    IsGated
      (packet response)
      hosting
      (handle_protocol_message (wire 100) (packet response) hosting).1
handle_protocol_message-IsGated_example =
    handle_protocol_message-IsGated (wire 100) (packet response) hosting nobody

accepted_decodes : decode_message (wire 100) (packet accepted).content ≡ ok accepted
accepted_decodes = decode-create_message (wire 100) accepted (omega arith) (omega arith)

claims_user_bob : user_of (or_default_user accepted.accepted_extension) ≡ ok bob
unfolding user_of copy_username to_long c_string
claims_user_bob = refl

accept_unasked_example :
    ((handle_protocol_message (wire 100) (packet accepted) hosting).1.tasks
      ≡ challenge_accepted_task accepted hosting.my_player (temp_player (packet accepted)) ∷ [])
    × (player_at
          (codes "99")
          (handle_challenge_accepted accepted (temp_player (packet accepted)) hosting).1
        ≡ some (admitted bob (temp_player (packet accepted))))
accept_unasked_example =
    accept_unasked (wire 100) (packet accepted) accepted bob hosting hosting accepted_decodes refl
      claims_user_bob nobody refl
