-- ===== src/Game/Runs.antt =====
-- Runs of the lifecycle and of the network thread.
use easygametools.Base.{
  ℕ, ◌+◌, ◌%◌, ◌^◌, Bool, true, false, some, [], ◌∷◌, ◌++◌, ◌≡◌, refl, ap, ◌⊎◌, arith, ◌==◌,
}
use easygametools.Base.Int.{pos}
use easygametools.Base.Text.{codes, strcmp_eq}
use easygametools.Base.Decimal.{atol, atol_signed, scan_digits, print_int}
use easygametools.Base.Table.{lookup, insert}
use easygametools.Base.Outcome.{Error, ok, err, protocol_error}
use easygametools.Xml.User.{load_user, load_user_loop, user_element, user_node, user_text}
use easygametools.Xml.ServerGame.{
  game_element, game_field, game_loop, game_node, game_text, load_server_game, ServerGame,
  new_server_game,
}
use easygametools.Directory.Examples.{server, user_nodes, local, bob}
use easygametools.Protocol.Packets.{decode_message, has_type}
use easygametools.Protocol.Examples.{wire}
use easygametools.Directory.{
  path_of, create_web_request, create_game, delete_game, get_external_ip, is_ok_status, read_game,
  read_response,
}
use easygametools.Web.Request.{
  snprintf, send_request, request_of, form_action, receive, c_string, headers_of, method_of,
  post_headers, script_with,
}
use easygametools.Web.Form.{put_variable, is_duplicate_var, has_var, same_name}
use easygametools.Web.Codec.{encode, encode_char, is_ordinary_char, print_hex}
use easygametools.Web.Body.{read_body, to_read}
use easygametools.Xml.UserList.{load_user_list, user_list_element, user_list_loop, user_list_node}
use easygametools.Xml.{copy_name, is_blank, node_name, read_id}
use easygametools.Game.State.{Game, Player, Packet, new_player, update_task, future_ok}
use easygametools.Game.Lifecycle.{
  resolve_host, start_raknet, enter_game, fail_start, host_game, release, stop_directory_client,
  Rak, find_port, stop_client, start_game,
}
use easygametools.Game.Stopped.{IsStopped, stop_client-IsStopped}
use easygametools.Game.Ports.{IsFirstFree, find_port-IsFirstFree}
use easygametools.Game.Hosting.{IsHosting, start_game-IsHosting}
use easygametools.Game.Loop.{is_caught, protocol_object, is_due, tick, run_loop}
use easygametools.Game.Schedule.{tick-not_due}
use easygametools.Game.Malformed.{reported, run_loop-malformed}
use easygametools.Game.Examples.{hosting, carol}

stop_client-IsStopped_example :
    (((stop_client server user_nodes hosting).0 ≡ ok tt)
      × IsStopped hosting (stop_client server user_nodes hosting).1)
    ⊎ ((e : Error) × ((stop_client server user_nodes hosting).0 ≡ err e)
        × ((stop_client server user_nodes hosting).1 ≡ hosting))
stop_client-IsStopped_example = stop_client-IsStopped server user_nodes hosting

abbrev taken : ℕ → Bool
taken p = p == 50000

find_port-IsFirstFree_example :
    (q : ℕ) × (find_port taken (2 ^ 16) 50000 ≡ ok q) × IsFirstFree taken 50000 q
find_port-IsFirstFree_example = find_port-IsFirstFree taken 50001 50000 (omega arith) refl

abbrev rak : Rak
rak = record {
  port_in_use = taken;
  started = λ p. true;
  guid_of = λ host p. codes "77";
  connecting = λ host p. true;
}

starts :
    (start_game server user_nodes rak (some (codes "10.0.0.1")) 50000 hosting).0
    ≡ ok (some (record { complete = false; code = future_ok }))
unfolding start_game find_port print_int atol atol_signed scan_digits lookup insert stop_client
    path_of create_web_request create_game delete_game get_external_ip is_ok_status read_game
    read_response snprintf send_request request_of form_action receive c_string headers_of method_of
    post_headers script_with put_variable is_duplicate_var has_var same_name encode encode_char
    is_ordinary_char print_hex read_body to_read game_element game_field game_loop game_node
    game_text load_server_game load_user load_user_loop user_element user_node user_text
    load_user_list user_list_element user_list_loop user_list_node copy_name is_blank node_name
    read_id resolve_host start_raknet enter_game fail_start host_game release stop_directory_client
starts = refl

start_game-IsHosting_example :
    IsHosting server user_nodes rak
      (start_game server user_nodes rak (some (codes "10.0.0.1")) 50000 hosting).1
start_game-IsHosting_example =
    start_game-IsHosting server user_nodes rak (some (codes "10.0.0.1")) 50000 hosting
      (start_game server user_nodes rak (some (codes "10.0.0.1")) 50000 hosting).1
      (some (record { complete = false; code = future_ok }))
      (ap (λ r. (r, (start_game server user_nodes rak (some (codes "10.0.0.1")) 50000 hosting).1))
        starts)

abbrev theirs : ServerGame
theirs = record new_server_game {
  game_id = pos 5;
  host_guid = some (codes "12");
  host_user = some bob;
}

abbrev me : Player
me = record new_player { user = some carol; client_guid = codes "77" }

-- A guest in the game of another.
abbrev visiting : Game
visiting = record hosting { the_game = some theirs; my_player = some me }

tick-not_due_example :
    ((tick 50000 50001 visiting).0 ≡ ok tt)
    × ((tick 50000 50001 visiting).1.tasks
        ≡ [] ++ update_task (some theirs) (some local) (strcmp_eq (codes "12") (codes "77")) ∷ [])
    × (is_due ((50001 + 45000) % 2 ^ 32) (tick 50000 50001 visiting).1.last_updated ≡ false)
unfolding is_due
tick-not_due_example =
    tick-not_due 50000 50001 45000 theirs carol bob (codes "12") me visiting (omega arith)
      (omega arith) refl refl refl refl refl refl refl

abbrev noise : Packet
noise = record {
  guid = codes "99";
  host = codes "10.0.0.2";
  port = pos 50001;
  content = 100 ∷ 7 ∷ [];
}

noise_fails :
    decode_message (wire 100) noise.content ≡ err (protocol_error "Can't parse protocol message")
unfolding decode_message has_type
noise_fails = refl

run_loop-malformed_example :
    ((run_loop server user_nodes
        (wire 100)
        (record { now = 1; later = 2; packets = (protocol_object, noise) ∷ [] } ∷ [])
        visiting).0
      ≡ ok tt)
    × IsStopped
        (reported visiting)
        (run_loop server user_nodes
          (wire 100)
          (record { now = 1; later = 2; packets = (protocol_object, noise) ∷ [] } ∷ [])
          visiting).1
unfolding is_caught
run_loop-malformed_example =
    run_loop-malformed server user_nodes (wire 100) noise
      (protocol_error "Can't parse protocol message") 1 2 [] [] theirs me (codes "12") visiting
      noise_fails refl refl refl refl refl refl refl
