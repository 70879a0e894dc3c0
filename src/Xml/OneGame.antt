-- ===== src/Xml/OneGame.antt =====
-- The loaders of games end within their fuel, and a list has one game at most.
use easygametools.Base.{
  ◌∙◌, ap, ℕ, zero, suc, ◌≤◌, ◌≡◌, refl, ◌⊎◌, inl, inr, Option, none, List, [], ◌∷◌, arith, length,
  All, Bool-cases,
}
use easygametools.Base.Text.{Bytes, codes}
use easygametools.Base.Table.{Table}
use easygametools.Base.Outcome.{ok, Ensures, Ensures-bind, Ensures-eq}
use easygametools.Xml.{Node, element, text, is_blank, node_name, is_prefix_of}
use easygametools.Xml.User.{new_user, load_user}
use easygametools.Xml.Total.{
  IsShort, IsRest, node_name-Ensures, load_user-Ensures, load_user_list-Ensures,
}
use easygametools.Xml.UserList.{load_user_list}
use easygametools.Xml.ServerGame.{
  ServerGame, new_server_game, game_element, game_node, game_loop, load_server_game,
}
use easygametools.Xml.GameList.{game_list_element, game_list_node, game_list_loop, load_game_list}

game_element-Ensures :
    (g : ServerGame) (n : Node) (attributes : Table Bytes Bytes) (name : Bytes) (rest : List Node)
    → All IsShort (n ∷ rest)
    → Ensures (game_element g n attributes name rest) (λ r. IsRest (length rest) r.1)
unfolding game_element
game_element-Ensures g n attributes name rest short =
    elim (Bool-cases (is_prefix_of name (codes "game"))) [
      | inl game ↦ rw game (short.1, omega arith)
      | inr no_game ↦ elim (Bool-cases (is_prefix_of name (codes "hostUser"))) [
        | inl host ↦
            rw (no_game, host)
              (Ensures-bind (load_user new_user (n ∷ rest)) _ (λ r. IsRest (length rest) r.1)
                (λ r. IsRest (length rest) r.1) (load_user-Ensures new_user n rest short)
                (λ r h. h))
        | inr no_host ↦ elim (Bool-cases (is_prefix_of name (codes "players"))) [
          | inl players ↦
              rw (no_game, no_host, players)
                (Ensures-bind (load_user_list rest) _ (λ r. r.1 ≡ [])
                  (λ r. IsRest (length rest) r.1) (load_user_list-Ensures rest short.1)
                  (λ r h. rw h (tt, omega arith)))
          | inr other ↦ rw (no_game, no_host, other) (short.1, omega arith)
        ]
      ]
    ]

game_node-Ensures :
    (g : ServerGame) (name : Option Bytes) (n : Node) (rest : List Node)
    → All IsShort (n ∷ rest)
    → Ensures (game_node g name n rest) (λ r. IsRest (length rest) r.2)
unfolding game_node
game_node-Ensures g name (text content) rest short = (short.1, omega arith)
game_node-Ensures g name (element tag attributes) rest short = elim (Bool-cases (is_blank tag)) [
  | inl blank ↦ rw blank (short.1, omega arith)
  | inr named ↦ rw named (
      Ensures-bind (node_name tag) _ (λ s. Unit) (λ r. IsRest (length rest) r.2)
        (node_name-Ensures tag attributes short.0 named)
        λ s _.
          Ensures-bind (game_element g (element tag attributes) attributes s rest) _
            (λ r. IsRest (length rest) r.1) (λ r. IsRest (length rest) r.2)
            (game_element-Ensures g (element tag attributes) attributes s rest short) (λ r h. h))
]
game_node-Ensures g name _ rest short = (short.1, omega arith)

game_loop-Ensures :
    (fuel : ℕ) (g : ServerGame) (name : Option Bytes) (nodes : List Node)
    → All IsShort nodes
    → length nodes ≤ fuel
    → Ensures (game_loop fuel g name nodes) (λ r. r.1 ≡ [])
unfolding game_loop
game_loop-Ensures zero g name [] short enough = refl
game_loop-Ensures (suc fuel) g name [] short enough = refl
game_loop-Ensures zero g name (n ∷ rest) short enough = elim enough [ ]
game_loop-Ensures (suc fuel) g name (n ∷ rest) short enough =
    Ensures-bind (game_node g name n rest) _ (λ r. IsRest (length rest) r.2) (λ r. r.1 ≡ [])
      (game_node-Ensures g name n rest short)
      (λ r h. game_loop-Ensures fuel r.0 r.1 r.2 h.0 (omega arith))

-- Where each element's name is shorter than 255 bytes, the loader of a game returns, and it has then
-- read the document to its end, whatever element it began at.
pub load_server_game-Ensures :
    (g : ServerGame) (nodes : List Node)
    → All IsShort nodes
    → Ensures (load_server_game g nodes) (λ r. r.1 ≡ [])
unfolding load_server_game
load_server_game-Ensures g nodes short =
    game_loop-Ensures (length nodes) g none nodes short (omega arith)

-- No more games than this in the list, and nothing left to read if there is one.
abbrev AtMostOne : ℕ → List ServerGame × List Node → Type 0
AtMostOne k (games, rest) = IsRest k rest × (length games ≤ 1) × ((games ≡ []) ⊎ (rest ≡ []))

game_list_element-Ensures :
    (n : Node) (name : Bytes) (rest : List Node)
    → All IsShort (n ∷ rest)
    → Ensures (game_list_element [] n name rest) (AtMostOne (length rest))
unfolding game_list_element
game_list_element-Ensures n name rest short = elim (Bool-cases (is_prefix_of name (codes "game"))) [
  | inl game ↦ rw game (
      Ensures-bind (load_server_game new_server_game (n ∷ rest)) _ (λ r. r.1 ≡ [])
        (AtMostOne (length rest)) (load_server_game-Ensures new_server_game (n ∷ rest) short)
        (λ r h. rw h ((tt, omega arith), omega arith, inr refl)))
  | inr other ↦ rw other ((short.1, omega arith), omega arith, inl refl)
]

game_list_node-Ensures :
    (n : Node) (rest : List Node)
    → All IsShort (n ∷ rest)
    → Ensures (game_list_node [] n rest) (AtMostOne (length rest))
unfolding game_list_node
game_list_node-Ensures (element tag attributes) rest short = elim (Bool-cases (is_blank tag)) [
  | inl blank ↦ rw blank ((short.1, omega arith), omega arith, inl refl)
  | inr named ↦ rw named (
      Ensures-bind (node_name tag) _ (λ s. Unit) (AtMostOne (length rest))
        (node_name-Ensures tag attributes short.0 named)
        (λ s _. game_list_element-Ensures (element tag attributes) s rest short))
]
game_list_node-Ensures _ rest short = ((short.1, omega arith), omega arith, inl refl)

game_list_loop-Ensures :
    (fuel : ℕ) (games : List ServerGame) (nodes : List Node)
    → All IsShort nodes
    → length nodes ≤ fuel
    → length games ≤ 1
    → (games ≡ []) ⊎ (nodes ≡ [])
    → Ensures (game_list_loop fuel games nodes) (λ r. (length r.0 ≤ 1) × (r.1 ≡ []))
unfolding game_list_loop
game_list_loop-Ensures zero games [] short enough one empty = (one, refl)
game_list_loop-Ensures (suc fuel) games [] short enough one empty = (one, refl)
game_list_loop-Ensures zero games (n ∷ rest) short enough one empty = elim enough [ ]
game_list_loop-Ensures (suc fuel) games (n ∷ rest) short enough one (inr e) = cc
game_list_loop-Ensures (suc fuel) games (n ∷ rest) short enough one (inl e) = rw e (
    Ensures-bind (game_list_node [] n rest) _ (AtMostOne (length rest))
      (λ r. (length r.0 ≤ 1) × (r.1 ≡ [])) (game_list_node-Ensures n rest short)
      (λ r h. game_list_loop-Ensures fuel r.0 r.1 h.0.0 (omega arith) h.1 h.2))

-- Where each element's name is shorter than 255 bytes, the loader of the game list returns, with all
-- nodes read, and with one game at most, however many `game` elements the document has.
pub load_game_list-at_most_one :
    (nodes : List Node)
    → All IsShort nodes
    → (games : List ServerGame) × (load_game_list nodes ≡ ok (games, [])) × (length games ≤ 1)
unfolding load_game_list
load_game_list-at_most_one nodes short =
    let (r, e, h) =
      Ensures-eq (game_list_loop (length nodes) [] nodes) (λ r. (length r.0 ≤ 1) × (r.1 ≡ []))
        (game_list_loop-Ensures (length nodes) [] nodes short (omega arith) (omega arith)
          (inl refl)) in
    (r.0, e ∙ ap (λ rest. ok (r.0, rest)) h.1, h.0)
