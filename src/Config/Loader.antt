-- ===== src/Config/Loader.antt =====
-- How `ConfigLoader` of game_client/game_client/Config.h reads config.xml.
use easygametools.Base.{
  ◌+◌, Bool, not, Option, none, some, List, [], ◌∷◌, length, ltb, if◌then◌else◌, ◌&&◌,
}
use easygametools.Base.Text.{Bytes, codes, strncmp_eq}
use easygametools.Base.Table.{Table, lookup, bytes_eq}
use easygametools.Base.Outcome.{Result, ok, err, fatal, unterminated, ◌>>=◌}
use easygametools.Xml.{Node, is_blank}
use easygametools.Config.{Config, set}

-- What the reader says at a node: the node, `isEmptyElement()` and `getNodeData()`.
pub record Item : Type 0 where
  pub node : Node
  pub is_empty_element : Bool
  pub node_data : Option Bytes

-- The loop over the attributes: the last whose name begins with `value` counts.
unfoldable pub read_value : Table Bytes Bytes → Table Bytes Bytes → Option Bytes → Option Bytes
read_value attributes [] found = found
read_value attributes ((name, _) ∷ rest) found =
    read_value attributes rest
      (if strncmp_eq (codes "value") name 5 then lookup name attributes else found)

-- `value == NULL || value[0] < 33`, and then the text of the tag.
unfoldable pub value_of : Table Bytes Bytes → Bool → Option Bytes → Option Bytes
unfolding read_value
value_of attributes is_empty node_data =
    let value = read_value attributes attributes none in
    if is_blank value && not is_empty then node_data else value

-- The warning, in `char buf[50]`, of which `_snprintf` fills 49: a longer text has no closing NUL. It is
-- read where warnings are on.
unfoldable pub warn_missing : Bool → Bytes → Config → Result Config
warn_missing warns name c =
    if warns && not (ltb (length (codes "Missing value for ") + length name) 49)
    then err unterminated
    else ok c

unfoldable pub set_value : Bool → Bytes → Option Bytes → Config → Result Config
unfolding warn_missing
set_value warns name none c = warn_missing warns name c
set_value warns name (some []) c = warn_missing warns name c
set_value warns name (some (b ∷ s)) c = ok (set name (b ∷ s) c)

-- `case irr::io::EXN_ELEMENT`
unfoldable pub config_element :
    Bool → Option Bytes → Table Bytes Bytes → Item → Config → Result Config
unfolding set_value value_of
config_element warns none attributes i c = ok c
config_element warns (some name) attributes i c =
    if is_blank (some name)
    then ok c
    else set_value warns name (value_of attributes i.is_empty_element i.node_data) c

-- The switch.
unfoldable pub config_node : Bool → Node → Item → Config → Result Config
unfolding config_element
config_node warns (Node.element name attributes) i c = config_element warns name attributes i c
config_node warns _ i c = ok c

-- `ConfigLoader::loadXmlReader`; `warns` tells whether the logger of the loader writes warnings.
unfoldable pub load_xml_reader : Bool → List Item → Config → Result Config
unfolding config_node
load_xml_reader warns [] c = ok c
load_xml_reader warns (i ∷ items) c = do
  c' ← config_node warns i.node i c
  load_xml_reader warns items c'

-- `ConfigLoader::getConfigLoader`, by the instance that there is and the file that can be opened.
unfoldable pub get_config_loader : Bool → Option (List Item) → Option Config → Result Config
unfolding load_xml_reader
get_config_loader warns file (some c) = ok c
get_config_loader warns none none = err (fatal "Cannot open config file.")
get_config_loader warns (some items) none = load_xml_reader warns items []
