-- ===== src/Xml/GameList.antt =====
-- `GameList` and its loader: game_client/game_client/GameList.h, GameList.cpp.
use easygametools.Base.{ℕ, zero, suc, List, [], ◌∷◌, ◌++◌, length, if◌then◌else◌}
use easygametools.Base.Text.{Bytes, codes}
use easygametools.Base.Outcome.{Result, ok, err, out_of_fuel, ◌>>=◌}
use easygametools.Xml.{Node, element, is_blank, node_name, is_prefix_of}
use easygametools.Xml.ServerGame.{ServerGame, new_server_game, load_server_game}

unfoldable pub game_list_element :
    List ServerGame → Node → Bytes → List Node → Result (List ServerGame × List Node)
game_list_element games n name rest =
    if is_prefix_of name (codes "game")
    then (do (g, rest') ← load_server_game new_server_game (n ∷ rest); ok (games ++ g ∷ [], rest'))
    else ok (games, rest)

unfoldable pub game_list_node :
    List ServerGame → Node → List Node → Result (List ServerGame × List Node)
game_list_node games (element tag attributes) rest =
    if is_blank tag
    then ok (games, rest)
    else do s ← node_name tag; game_list_element games (element tag attributes) s rest
game_list_node games _ rest = ok (games, rest)

-- The loop of `GameList::loadFromReader`, over the nodes that `read()` returns.
unfoldable pub game_list_loop :
    ℕ → List ServerGame → List Node → Result (List ServerGame × List Node)
game_list_loop fuel games [] = ok (games, [])
game_list_loop zero games (n ∷ rest) = err out_of_fuel
game_list_loop (suc fuel) games (n ∷ rest) = do
  (games', rest') ← game_list_node games n rest
  game_list_loop fuel games' rest'

-- `GameList::loadFromReader` of a new list.
unfoldable pub load_game_list : List Node → Result (List ServerGame × List Node)
load_game_list nodes = game_list_loop (length nodes) [] nodes
