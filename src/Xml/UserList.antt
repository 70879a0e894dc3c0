-- ===== src/Xml/UserList.antt =====
-- `UserList` and its loader: game_client/game_client/UserList.h, UserList.cpp.
use easygametools.Base.{ℕ, zero, suc, List, [], ◌∷◌, ◌++◌, length, if◌then◌else◌}
use easygametools.Base.Text.{Bytes, codes}
use easygametools.Base.Outcome.{Result, ok, err, out_of_fuel, ◌>>=◌}
use easygametools.Xml.{Node, element, is_blank, node_name, is_prefix_of}
use easygametools.Xml.User.{User, new_user, load_user}

-- An element that is not blank, with the nodes behind it.
unfoldable pub user_list_element :
    List User → Node → Bytes → List Node → Result (List User × List Node)
user_list_element users n name rest =
    if is_prefix_of name (codes "user")
    then (do (u, rest') ← load_user new_user (n ∷ rest); ok (users ++ u ∷ [], rest'))
    else ok (users, rest)

unfoldable pub user_list_node : List User → Node → List Node → Result (List User × List Node)
user_list_node users (element tag attributes) rest =
    if is_blank tag
    then ok (users, rest)
    else do s ← node_name tag; user_list_element users (element tag attributes) s rest
user_list_node users _ rest = ok (users, rest)

-- The loop of `UserList::loadFromReader`, over the nodes that `read()` returns.
unfoldable pub user_list_loop : ℕ → List User → List Node → Result (List User × List Node)
user_list_loop fuel users [] = ok (users, [])
user_list_loop zero users (n ∷ rest) = err out_of_fuel
user_list_loop (suc fuel) users (n ∷ rest) = do
  (users', rest') ← user_list_node users n rest
  user_list_loop fuel users' rest'

-- `UserList::loadFromReader` of a new list. Each round takes a node at least.
unfoldable pub load_user_list : List Node → Result (List User × List Node)
load_user_list nodes = user_list_loop (length nodes) [] nodes
