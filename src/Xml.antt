-- ===== src/Xml.antt =====
-- What the loaders of game_client/game_client (`User`, `UserList`, `ServerGame`, `GameList`) read: the
-- nodes of `irr::io::IrrXMLReader`, and the tests on names that all four loaders make.
--
-- A reader is the list of the nodes that `read()` has still to return, the current one in front where
-- a loader looks at it first. The parser behind it is a library and not modelled.
pub mod User
pub mod UserList
pub mod ServerGame
pub mod GameList
pub mod Source
mod Examples
pub mod Total
pub mod OneGame
use mathlib.Core.Option
use easygametools.Base.{
  ℕ, Bool, true, false, ◌||◌, Option, none, some, List, [], ◌∷◌, ltb, leb, if◌then◌else◌, length,
}
use easygametools.Base.Int.{ℤ}
use easygametools.Base.Text.{Bytes, codes, strncmp_eq}
use easygametools.Base.Decimal.{atol}
use easygametools.Base.Table.{Table, lookup, bytes_eq}
use easygametools.Base.Outcome.{Result, ok, err, buffer_overflow, null_pointer}

-- A node as the reader reports it: `EXML_NODE` with the name, the attributes or the text that it has.
pub data Node : Type 0 where
  element : Option Bytes → Table Bytes Bytes → Node
  text : Bytes → Node
  element_end comment cdata unknown nothing : Node

-- `nodeName == NULL || nodeName[0] < 33`; `char` is signed.
unfoldable pub is_blank : Option Bytes → Bool
is_blank none = true
is_blank (some []) = true
is_blank (some (c ∷ s)) = ltb c 33 || leb 128 c

-- `strncpy` into `char nodeNameBuf[255]`, and the closing NUL.
unfoldable pub copy_name : Bytes → Result Bytes
copy_name s = if ltb (length s) 255 then ok s else err buffer_overflow

-- The name of an element that is not blank, in the loader's buffer.
unfoldable pub node_name : Option Bytes → Result Bytes
unfolding copy_name
node_name none = err null_pointer
node_name (some s) = copy_name s

-- `strncmp(nodeName, word, strlen(nodeName)) == 0`: the name is a prefix of the word.
abbrev pub is_prefix_of : Bytes → Bytes → Bool
is_prefix_of name word = strncmp_eq name word (length name)

-- The loop over the attributes that looks for `id`: the last attribute whose name begins so counts.
-- `getAttributeValue` finds the first attribute of a name.
unfoldable pub read_id : Table Bytes Bytes → Table Bytes Bytes → Option ℤ → Option ℤ
read_id attributes [] found = found
read_id attributes ((name, _) ∷ rest) found =
    read_id attributes rest
      (if strncmp_eq (codes "id") name 2 then Option.map atol (lookup name attributes) else found)
