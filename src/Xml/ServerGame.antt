-- ===== src/Xml/ServerGame.antt =====
-- `ServerGame` and its loader: game_client/game_client/ServerGame.h, ServerGame.cpp.

use easygametools.Base.{ℕ, zero, suc, Option, none, some, List, [], ◌∷◌, length, if◌then◌else◌}
use easygametools.Base.Int.{ℤ, pos}
use easygametools.Base.Text.{Bytes, codes, strncmp_eq}
use easygametools.Base.Decimal.{atol}
use easygametools.Base.Table.{Table}
use easygametools.Base.Outcome.{Result, ok, err, out_of_fuel, ◌>>=◌}
use easygametools.Xml.{Node, element, text, is_blank, node_name, is_prefix_of, read_id}
use easygametools.Xml.User.{User, new_user, load_user}
use easygametools.Xml.UserList.{load_user_list}

pub record ServerGame : Type 0 where
  pub game_id : ℤ
  pub host_name : Option Bytes
  pub host_port : ℤ
  pub number_of_players : ℤ
  pub max_players : ℤ
  pub last_update : ℤ
  pub host_guid : Option Bytes
  pub host_user : Option User
  pub players : List User

-- `ServerGame()`
abbrev pub new_server_game : ServerGame
new_server_game = record {
  game_id = pos 0;
  host_name = none;
  host_port = pos 0;
  number_of_players = pos 0;
  max_players = pos 0;
  last_update = pos 0;
  host_guid = none;
  host_user = none;
  players = [];
}

-- The field that a text goes to, by the name of the element above it.
unfoldable pub game_field : ServerGame → Bytes → Bytes → ServerGame
game_field g name content =
    if strncmp_eq name (codes "hostName") 8
    then record g { host_name = some content }
    else if strncmp_eq name (codes "hostPort") 8
    then record g { host_port = atol content }
    else if strncmp_eq name (codes "lastUpdate") 10
    then record g { last_update = atol content }
    else if strncmp_eq name (codes "numberOfPlayers") 15
    then record g { number_of_players = atol content }
    else if strncmp_eq name (codes "maxPlayers") 10
    then record g { max_players = atol content }
    else if strncmp_eq name (codes "hostGuid") 10
    then record g { host_guid = some content }
    else g

unfoldable pub game_text : ServerGame → Option Bytes → Bytes → ServerGame × Option Bytes
game_text g none content = (g, none)
game_text g (some name) content =
    if is_blank (some name) then (g, none) else (game_field g name content, some name)

-- `gameId` stays as it is where no attribute is found.
abbrev set_id : ServerGame → Option ℤ → ServerGame
set_id g none = g
set_id g (some i) = record g { game_id = i }

-- An element that is not blank: the game, and the nodes that the nested loaders leave.
unfoldable pub game_element :
    ServerGame → Node → Table Bytes Bytes → Bytes → List Node → Result (ServerGame × List Node)
game_element g n attributes name rest =
    if is_prefix_of name (codes "game")
    then ok (set_id g (read_id attributes attributes none), rest)
    else if is_prefix_of name (codes "hostUser")
    then (do
      (u, rest') ← load_user new_user (n ∷ rest)
      ok (record g { host_user = some u }, rest'))
    else if is_prefix_of name (codes "players")
    then (do (users, rest') ← load_user_list rest; ok (record g { players = users }, rest'))
    else ok (g, rest)

unfoldable pub game_node :
    ServerGame → Option Bytes → Node → List Node → Result (ServerGame × Option Bytes × List Node)
game_node g name (text content) rest =
    let (g', name') = game_text g name content in ok (g', name', rest)
game_node g name (element tag attributes) rest = if is_blank tag then ok (g, none, rest) else do
  s ← node_name tag
  (g', rest') ← game_element g (element tag attributes) attributes s rest
  ok (g', some s, rest')
game_node g name _ rest = ok (g, name, rest)

-- The loop of `ServerGame::loadFromReader`, from the current node.
unfoldable pub game_loop :
    ℕ → ServerGame → Option Bytes → List Node → Result (ServerGame × List Node)
game_loop fuel g name [] = ok (g, [])
game_loop zero g name (n ∷ rest) = err out_of_fuel
game_loop (suc fuel) g name (n ∷ rest) = do
  (g', name', rest') ← game_node g name n rest
  game_loop fuel g' name' rest'

-- `ServerGame::loadFromReader`. Each round takes a node at least.
unfoldable pub load_server_game : ServerGame → List Node → Result (ServerGame × List Node)
load_server_game g nodes = game_loop (length nodes) g none nodes
