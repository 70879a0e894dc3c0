-- ===== src/Game/HandshakeRun.antt =====
-- A run of the handshake.
use easygametools.Base.{some, [], ◌∷◌, ◌++◌, ◌≡◌, refl, arith}
use easygametools.Base.Int.{pos}
use easygametools.Base.Text.{codes}
use easygametools.Base.Decimal.{atol, atol_signed, scan_digits, print_int}
use easygametools.Base.Table.{lookup}
use easygametools.Base.Outcome.{ok}
use easygametools.Xml.{is_blank, node_name, copy_name, read_id}
use easygametools.Xml.User.{load_user, load_user_loop, user_node, user_text, user_element}
use easygametools.Web.Codec.{encode, encode_char, is_ordinary_char, print_hex}
use easygametools.Web.Form.{put_variable, is_duplicate_var, has_var, same_name}
use easygametools.Web.Body.{read_body, to_read}
use easygametools.Web.Request.{
  snprintf, send_request, request_of, form_action, method_of, script_with, headers_of, post_headers,
  receive, c_string,
}
use easygametools.Directory.{
  path_of, create_web_request, is_ok_status, read_user, read_response, validate_user,
}
use easygametools.Directory.Examples.{server, user_nodes, local, bob}
use easygametools.Protocol.Packets.{create_message}
use easygametools.Protocol.Examples.{wire}
use easygametools.Game.State.{Player, Packet, new_player, send_to, challenge_response_task}
use easygametools.Game.Handlers.{to_long, admitted, handle_challenge, run_handler}
use easygametools.Game.Dispatch.{handle_protocol_message, temp_player}
use easygametools.Game.Players.{player_at}
use easygametools.Game.Handshake.{IsSendable, response_of, handshake-admits}
use easygametools.Game.Examples.{hosting, nobody}
use easygametools.Xml.ServerGame.{new_server_game}

abbrev guest_player : Player
guest_player = record new_player { user = some bob }

abbrev host_player : Player
host_player = record new_player { client_guid = codes "12" }

abbrev answer : Packet
answer = record {
  guid = codes "99";
  host = codes "10.0.0.2";
  port = pos 50001;
  content = create_message (wire 100) (response_of (pos 42) (codes "bob"));
}

bob-IsSendable : IsSendable (pos 42) (codes "bob")
unfolding to_long c_string
bob-IsSendable = record { fits = refl; short = omega arith; closed = refl }

confirmed : validate_user server user_nodes (pos 42) (pos 5) local ≡ ok (some bob)
unfolding validate_user path_of create_web_request put_variable is_duplicate_var has_var same_name
    snprintf send_request request_of form_action encode encode_char is_ordinary_char print_hex
    method_of script_with headers_of post_headers receive c_string read_body to_read is_ok_status
    read_user read_response atol atol_signed scan_digits lookup load_user load_user_loop user_node
    user_text user_element is_blank node_name copy_name read_id print_int
confirmed = refl

handshake-admits_example :
    ((handle_challenge (wire 100) (some guest_player) host_player hosting).1.calls
      ≡ [] ++ send_to (codes "12") answer.content ∷ [])
    × ((handle_protocol_message (wire 100) answer hosting).1.tasks
        ≡ []
          ++ challenge_response_task
              (some local)
              (response_of (pos 42) (codes "bob"))
              hosting.my_player
              (temp_player answer)
            ∷ [])
    × (player_at
          (codes "99")
          (run_handler server user_nodes
            (wire 100)
            (challenge_response_task
              (some local)
              (response_of (pos 42) (codes "bob"))
              hosting.my_player
              (temp_player answer))
            hosting).1
        ≡ some (admitted bob (temp_player answer)))
handshake-admits_example =
    handshake-admits server user_nodes (wire 100) local (record new_server_game { game_id = pos 5 })
      bob (pos 42) (codes "bob") guest_player host_player answer hosting hosting hosting
      (omega arith) (omega arith) bob-IsSendable refl refl refl nobody refl refl refl confirmed refl
