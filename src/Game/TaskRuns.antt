-- ===== src/Game/TaskRuns.antt =====
-- Runs of the tasks about the directory, and of a client that is refused.
use easygametools.Base.{true, false, some, [], ◌∷◌, ◌++◌, ◌≡◌, refl, arith}
use easygametools.Base.Int.{pos}
use easygametools.Base.Text.{codes}
use easygametools.Base.Decimal.{atol, atol_signed, scan_digits, print_int}
use easygametools.Base.Table.{lookup, bytes_eq}
use easygametools.Base.Outcome.{ok}
use easygametools.Xml.{is_blank, node_name, copy_name, read_id}
use easygametools.Xml.User.{load_user, load_user_loop, user_node, user_text, user_element}
use easygametools.Web.Codec.{encode, encode_char, is_ordinary_char, print_hex}
use easygametools.Web.Form.{put_variable, is_duplicate_var, has_var, same_name}
use easygametools.Web.Body.{read_body, to_read}
use easygametools.Web.Request.{
  snprintf, send_request, request_of, form_action, method_of, script_with, headers_of, post_headers,
  receive, c_string,
}
use easygametools.Directory.{
  path_of, create_web_request, is_ok_status, read_game, read_response, adopt_game,
}
use easygametools.Directory.Examples.{server, user_nodes, local}
use easygametools.Protocol.Packets.{create_message}
use easygametools.Protocol.Examples.{wire}
use easygametools.Game.State.{
  Game, broadcast, Packet, new_player, update_task, event_task, object_message,
}
use easygametools.Game.Loop.{link_lost, no_free_incoming_connections, run_loop}
use easygametools.Game.Stopped.{IsStopped}
use easygametools.Game.Malformed.{reported}
use easygametools.Game.Refused.{told, run_loop-refused}
use easygametools.Game.Lifecycle.{Rak}
use easygametools.Game.Tasks.{run_adopt_task}
use easygametools.Game.Migration.{run_adopt_task-takes_over}
use easygametools.Game.Dispatch.{handle_protocol_message}
use easygametools.Game.Examples.{hosting}
use easygametools.Xml.ServerGame.{
  new_server_game, load_server_game, game_loop, game_node, game_text, game_field, game_element,
}
use easygametools.Protocol.{proto_new_host_message}

abbrev rak : Rak
rak = record {
  port_in_use = λ p. false;
  started = λ p. true;
  guid_of = λ host p. codes "77";
  connecting = λ host p. true;
}

adopted :
    adopt_game server user_nodes (pos 5) (codes "10.0.0.1") (pos 50000) (codes "77") local
    ≡ ok new_server_game
unfolding adopt_game read_game load_server_game game_loop game_node game_text game_field
    game_element path_of create_web_request put_variable is_duplicate_var has_var same_name snprintf
    send_request request_of form_action encode encode_char is_ordinary_char print_hex method_of
    script_with headers_of post_headers receive c_string read_body to_read is_ok_status
    read_response atol atol_signed scan_digits lookup load_user load_user_loop user_node user_text
    user_element is_blank node_name copy_name read_id print_int
adopted = refl

abbrev news : Packet
news = record {
  guid = codes "77";
  host = codes "10.0.0.1";
  port = pos 50000;
  content = create_message (wire 100) (proto_new_host_message (pos 0));
}

-- A client that knows the new host.
abbrev other : Game
other = record hosting { game_players = (codes "77", some new_player) ∷ [] }

knows : lookup (codes "77") other.game_players ≡ some (some new_player)
unfolding lookup
knows = refl

run_adopt_task-takes_over_example :
    (run_adopt_task server user_nodes rak
        (wire 100)
        (some local)
        (some (codes "10.0.0.1"))
        (pos 50000)
        false
        hosting
      ≡ (
        ok tt,
        record hosting {
          the_game = some new_server_game;
          calls = [] ++ broadcast news.content ∷ [];
        },
      ))
    × ((handle_protocol_message (wire 100) news other).1.tasks
        ≡ []
          ++ update_task other.the_game other.directory false
            ∷ event_task object_message (some news)
            ∷ [])
run_adopt_task-takes_over_example =
    run_adopt_task-takes_over server user_nodes rak (wire 100) local
      (record new_server_game { game_id = pos 5 }) new_server_game (codes "10.0.0.1") (pos 50000)
      news new_player hosting other (omega arith) (omega arith) refl refl adopted refl knows refl

run_loop-refused_example :
    ((run_loop server user_nodes
        (wire 100)
        (record {
          now = 1;
          later = 2;
          packets = (no_free_incoming_connections, news) ∷ (link_lost, news) ∷ [];
        }
          ∷ [])
        hosting).0
      ≡ ok tt)
    × IsStopped
        (reported (told link_lost news hosting))
        (run_loop server user_nodes
          (wire 100)
          (record {
            now = 1;
            later = 2;
            packets = (no_free_incoming_connections, news) ∷ (link_lost, news) ∷ [];
          }
            ∷ [])
          hosting).1
run_loop-refused_example =
    run_loop-refused server user_nodes (wire 100) link_lost news news 1 2 [] [] hosting tt refl refl
