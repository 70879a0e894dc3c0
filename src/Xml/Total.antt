-- ===== src/Xml/Total.antt =====
-- The loaders end, within the fuel that they are given, and stay inside `nodeNameBuf`.
use easygametools.Base.{
  ℕ, zero, suc, ◌-◌, ◌≤◌, ◌<◌, ◌≡◌, refl, Bool, true, false, ◌&&◌, inl, inr, Option, none, some,
  List, [], ◌∷◌, arith, length, All, if◌then◌else◌, is_some, Bool-cases, lt→ltb,
}
use easygametools.Base.Text.{Bytes, codes}
use easygametools.Base.Table.{Table}
use easygametools.Base.Outcome.{Result, ok, Ensures, Ensures-bind, Ensures-weaken}
use easygametools.Xml.{Node, element, text, is_blank, node_name, is_prefix_of}
use easygametools.Xml.User.{User, new_user, user_node, load_user_loop, load_user}
use easygametools.Xml.UserList.{user_list_element, user_list_node, user_list_loop, load_user_list}

-- The name of an element fits `nodeNameBuf`, with its closing NUL.
abbrev pub IsShort : Node → Type 0
IsShort (element (some s) attributes) = length s < 255
IsShort _ = Unit

-- Short names, and at most `k` nodes.
abbrev pub IsRest : ℕ → List Node → Type 0
IsRest k rest = All IsShort rest × (length rest ≤ k)

IsRest-mono : (j k : ℕ) (rest : List Node) → j ≤ k → IsRest j rest → IsRest k rest
IsRest-mono j k rest le h = (h.0, omega arith)

pub node_name-Ensures :
    (tag : Option Bytes) (attributes : Table Bytes Bytes)
    → IsShort (element tag attributes)
    → is_blank tag ≡ false
    → Ensures (node_name tag) (λ s. Unit)
unfolding node_name is_blank
node_name-Ensures none attributes short named = cc
node_name-Ensures (some s) attributes short named = rw (lt→ltb _ _ short) tt

user_node-Ensures :
    (u : User) (name : Option Bytes) (n : Node)
    → IsShort n
    → Ensures (user_node u name n) (λ r. Unit)
unfolding user_node
user_node-Ensures u name (text content) short = tt
user_node-Ensures u name (element tag attributes) short = elim (Bool-cases (is_blank tag)) [
  | inl blank ↦ rw blank tt
  | inr named ↦ rw named (
      Ensures-bind (node_name tag) _ (λ s. Unit) (λ r. Unit)
        (node_name-Ensures tag attributes short named) (λ s _. tt))
]
user_node-Ensures u name _ short = tt

if-Ensures :
    {A : Type 0} (b : Bool) (m n : Result A) (P : A → Type 0)
    → Ensures m P
    → Ensures n P
    → Ensures (if b then m else n) P
if-Ensures true m n P hm hn = hm
if-Ensures false m n P hm hn = hn

load_user_loop-Ensures :
    (u : User) (name : Option Bytes) (nodes : List Node)
    → All IsShort nodes
    → Ensures (load_user_loop u name nodes) (λ r. IsRest (length nodes - 1) r.1)
unfolding load_user_loop
load_user_loop-Ensures u name [] short = (tt, omega arith)
load_user_loop-Ensures u name (n ∷ rest) short =
    Ensures-bind (user_node u name n) _ (λ r. Unit) (λ r. IsRest (length (n ∷ rest) - 1) r.1)
      (user_node-Ensures u name n short.0)
      λ r _.
        if-Ensures (r.2 && is_some r.0.username) (ok (r.0, rest)) _
          (λ r. IsRest (length (n ∷ rest) - 1) r.1) (short.1, omega arith)
          (Ensures-weaken _ (λ s. IsRest (length rest - 1) s.1) _
            (load_user_loop-Ensures r.0 r.1 rest short.1)
            (λ s h. IsRest-mono _ _ s.1 (omega arith) h))

-- From an element, the loader of a user takes that element at least.
pub load_user-Ensures :
    (u : User) (n : Node) (rest : List Node)
    → All IsShort (n ∷ rest)
    → Ensures (load_user u (n ∷ rest)) (λ r. IsRest (length rest) r.1)
unfolding load_user
load_user-Ensures u n rest short =
    Ensures-weaken _ (λ r. IsRest (length (n ∷ rest) - 1) r.1) _
      (load_user_loop-Ensures u none (n ∷ rest) short) (λ s h. IsRest-mono _ _ s.1 (omega arith) h)

user_list_element-Ensures :
    (users : List User) (n : Node) (name : Bytes) (rest : List Node)
    → All IsShort (n ∷ rest)
    → Ensures (user_list_element users n name rest) (λ r. IsRest (length rest) r.1)
unfolding user_list_element
user_list_element-Ensures users n name rest short =
    elim (Bool-cases (is_prefix_of name (codes "user"))) [
      | inl user ↦ rw user (
          Ensures-bind (load_user new_user (n ∷ rest)) _ (λ r. IsRest (length rest) r.1)
            (λ r. IsRest (length rest) r.1) (load_user-Ensures new_user n rest short) (λ r h. h))
      | inr other ↦ rw other (short.1, omega arith)
    ]

user_list_node-Ensures :
    (users : List User) (n : Node) (rest : List Node)
    → All IsShort (n ∷ rest)
    → Ensures (user_list_node users n rest) (λ r. IsRest (length rest) r.1)
unfolding user_list_node
user_list_node-Ensures users (element tag attributes) rest short =
    elim (Bool-cases (is_blank tag)) [
      | inl blank ↦ rw blank (short.1, omega arith)
      | inr named ↦ rw named (
          Ensures-bind (node_name tag) _ (λ s. Unit) (λ r. IsRest (length rest) r.1)
            (node_name-Ensures tag attributes short.0 named)
            (λ s _. user_list_element-Ensures users (element tag attributes) s rest short))
    ]
user_list_node-Ensures users _ rest short = (short.1, omega arith)

-- The loop of a list reads all nodes, and needs no more fuel than there are nodes.
user_list_loop-Ensures :
    (fuel : ℕ) (users : List User) (nodes : List Node)
    → All IsShort nodes
    → length nodes ≤ fuel
    → Ensures (user_list_loop fuel users nodes) (λ r. r.1 ≡ [])
unfolding user_list_loop
user_list_loop-Ensures zero users [] short enough = refl
user_list_loop-Ensures (suc fuel) users [] short enough = refl
user_list_loop-Ensures zero users (n ∷ rest) short enough = elim enough [ ]
user_list_loop-Ensures (suc fuel) users (n ∷ rest) short enough =
    Ensures-bind (user_list_node users n rest) _ (λ r. IsRest (length rest) r.1) (λ r. r.1 ≡ [])
      (user_list_node-Ensures users n rest short)
      (λ r h. user_list_loop-Ensures fuel r.0 r.1 h.0 (omega arith))

pub load_user_list-Ensures :
    (nodes : List Node) → All IsShort nodes → Ensures (load_user_list nodes) (λ r. r.1 ≡ [])
unfolding load_user_list
load_user_list-Ensures nodes short =
    user_list_loop-Ensures (length nodes) [] nodes short (omega arith)
