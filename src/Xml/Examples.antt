-- ===== src/Xml/Examples.antt =====
-- Runs of the loaders on documents as the directory server writes them.
use Prim.Native.String.{String}
use easygametools.Base.{◌≤◌, length, arith, some, List, [], ◌∷◌, ◌≡◌, refl}
use easygametools.Base.Int.{pos}
use easygametools.Base.Text.{codes}
use easygametools.Base.Decimal.{atol}
use easygametools.Base.Outcome.{ok, err, unterminated, Ensures}
use easygametools.Xml.OneGame.{load_game_list-at_most_one}
use easygametools.Base.Table.{lookup}
use easygametools.Xml.Source.{new_source, get_size, read, read_all, read_all-new_source}
use easygametools.Xml.{Node, element, text, element_end, nothing, is_blank, node_name, read_id}
use easygametools.Xml.User.{load_user, new_user, load_user_loop, user_node, user_text, user_element}
use easygametools.Xml.GameList.{load_game_list, game_list_loop, game_list_node, game_list_element}
use easygametools.Xml.ServerGame.{
  ServerGame, new_server_game, load_server_game, game_loop, game_node, game_text, game_field,
  game_element,
}

read_all-new_source_example :
    Ensures
      (read_all (4 ∷ 4 ∷ 4 ∷ []) (new_source (codes "<user/>") 7))
      (λ (out, s'). (out ≡ codes "<user/>") × (get_size s' ≡ 0))
read_all-new_source_example = read_all-new_source (4 ∷ 4 ∷ 4 ∷ []) (codes "<user/>")

-- A length that is not the text's.
read_behind : read 9 (new_source (codes "<user/>") 9) ≡ err unterminated
unfolding read
read_behind = refl

abbrev tag : String → Node
tag name = element (some (codes name)) []

abbrev tag_id : String → String → Node
tag_id name i = element (some (codes name)) ((codes "id", codes i) ∷ [])

abbrev user_document : List Node
user_document =
    nothing
    ∷ tag_id "user" "42"
    ∷ tag "username"
    ∷ text (codes "bob")
    ∷ element_end
    ∷ element_end
    ∷ []

load_user_document :
    load_user new_user user_document
    ≡ ok (record { user_id = some (pos 42); username = some (codes "bob") }, element_end ∷ [])
unfolding load_user load_user_loop user_node user_text user_element is_blank node_name read_id
    lookup atol
load_user_document = refl

abbrev two_games : List Node
two_games =
    tag "games"
    ∷ tag_id "game" "1"
    ∷ element_end
    ∷ tag_id "game" "2"
    ∷ element_end
    ∷ element_end
    ∷ []

load_two_games : load_game_list two_games ≡ ok (record new_server_game { game_id = pos 2 } ∷ [], [])
unfolding load_game_list game_list_loop game_list_node game_list_element load_server_game game_loop
    game_node game_text game_field game_element is_blank node_name read_id lookup atol
load_two_games = refl

load_game_list-at_most_one_example :
    (games : List ServerGame) × (load_game_list two_games ≡ ok (games, [])) × (length games ≤ 1)
load_game_list-at_most_one_example = load_game_list-at_most_one two_games (omega arith)
