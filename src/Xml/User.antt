-- ===== src/Xml/User.antt =====
-- `User` and its loader: game_client/game_client/User.h, User.cpp.

use easygametools.Base.{
  Bool, true, false, ◌&&◌, ◌||◌, Option, none, some, List, [], ◌∷◌, is_some, if◌then◌else◌,
}
use easygametools.Base.Int.{ℤ}
use easygametools.Base.Text.{Bytes, codes, strncmp_eq}
use easygametools.Base.Table.{Table}
use easygametools.Base.Outcome.{Result, ok, ◌>>=◌}
use easygametools.Xml.{Node, element, text, is_blank, node_name, is_prefix_of, read_id}

-- `none` for a member that has not been set: `User()` leaves `userId` without a value, and sets
-- `username` to NULL.
pub record User : Type 0 where
  pub user_id : Option ℤ
  pub username : Option Bytes

-- `User()`
abbrev pub new_user : User
new_user = record { user_id = none; username = none }

-- A text node: `false` in the last place for `continue`, `true` for `break`.
unfoldable pub user_text : User → Option Bytes → Bytes → User × Option Bytes × Bool
user_text u none content = (u, none, false)
user_text u (some name) content =
    if is_blank (some name)
    then (u, none, false)
    else if strncmp_eq name (codes "username") 8
    then (record u { username = some content }, some name, false)
    else (u, some name, true)

unfoldable pub user_element : User → Table Bytes Bytes → Bytes → User × Option Bytes × Bool
user_element u attributes name =
    if is_prefix_of name (codes "hostUser") || is_prefix_of name (codes "user")
    then (record u { user_id = read_id attributes attributes u.user_id }, some name, false)
    else (u, some name, true)

-- One round of the loop: the user, the element's name, and whether the switch ended by `break`.
unfoldable pub user_node : User → Option Bytes → Node → Result (User × Option Bytes × Bool)
user_node u name (text content) = ok (user_text u name content)
user_node u name (element tag attributes) =
    if is_blank tag
    then ok (u, none, false)
    else do s ← node_name tag; ok (user_element u attributes s)
user_node u name _ = ok (u, name, true)

-- `User::loadFromReader`, from the current node. The second result is what the reader has left. The
-- test on `username` is skipped after a `continue`.
unfoldable pub load_user_loop : User → Option Bytes → List Node → Result (User × List Node)
load_user_loop u name [] = ok (u, [])
load_user_loop u name (n ∷ rest) = do
  (u', name', to_test) ← user_node u name n
  if to_test && is_some u'.username then ok (u', rest) else load_user_loop u' name' rest

unfoldable pub load_user : User → List Node → Result (User × List Node)
load_user u nodes = load_user_loop u none nodes
