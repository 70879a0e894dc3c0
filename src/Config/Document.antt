-- ===== src/Config/Document.antt =====
-- The documents that config.xml is one of: a line for each variable, and remarks.
use easygametools.Base.{
  ◌≡◌, refl, ap, ◌∙◌, Bool, true, false, Option, none, some, List, [], ◌∷◌, if◌then◌else◌,
}
use easygametools.Base.Text.{Bytes, codes}
use easygametools.Base.Table.{lookup, bytes_eq}
use easygametools.Base.Outcome.{ok, Ensures, Ensures-weaken}
use easygametools.Xml.{Node, is_blank}
use easygametools.Config.{Config, get, set, get-set}
use easygametools.Config.Loader.{
  Item, read_value, value_of, set_value, config_element, config_node, load_xml_reader,
}

-- `<name value="…"/>`, or a comment, a blank, the end of a tag.
pub data Line : Type 0 where
  setting : Bytes → Bytes → Line
  remark : Node → Line

-- A name or value that the loader takes: it starts with a printable character.
abbrev pub IsPrintable : Bytes → Type 0
IsPrintable s = is_blank (some s) ≡ false

-- The nodes that are no element.
abbrev pub is_element : Node → Bool
is_element (Node.element name attributes) = true
is_element _ = false

abbrev pub IsLine : Line → Type 0
IsLine (Line.setting name value) = IsPrintable name × IsPrintable value
IsLine (Line.remark node) = is_element node ≡ false

abbrev pub AreLines : List Line → Type 0
AreLines [] = Unit
AreLines (l ∷ ls) = IsLine l × AreLines ls

abbrev pub item_of : Line → Item
item_of (Line.setting name value) = record {
  node = Node.element (some name) ((codes "value", value) ∷ []);
  is_empty_element = true;
  node_data = none;
}
item_of (Line.remark node) = record { node = node; is_empty_element = false; node_data = none }

abbrev pub document : List Line → List Item
document [] = []
document (l ∷ ls) = item_of l ∷ document ls

-- The value of a variable: that of its last line, or the one before them.
abbrev pub last_value : Bytes → List Line → Option Bytes → Option Bytes
last_value name [] before = before
last_value name (Line.setting key value ∷ ls) before =
    last_value name ls (if bytes_eq.beq key name then some value else before)
last_value name (Line.remark node ∷ ls) before = last_value name ls before

remark-line :
    (warns : Bool) (node : Node) (i : Item) (c : Config)
    → is_element node ≡ false
    → config_node warns node i c ≡ ok c
unfolding config_node
remark-line warns (Node.element name attributes) i c h = absurd cc
remark-line warns (Node.text s) i c h = refl
remark-line warns Node.element_end i c h = refl
remark-line warns Node.comment i c h = refl
remark-line warns Node.cdata i c h = refl
remark-line warns Node.unknown i c h = refl
remark-line warns Node.nothing i c h = refl

setting-line :
    (warns : Bool) (name value : Bytes) (c : Config)
    → IsLine (Line.setting name value)
    → config_node warns
        (item_of (Line.setting name value)).node
        (item_of (Line.setting name value))
        c
      ≡ ok (set name value c)
unfolding config_node config_element value_of read_value set_value lookup is_blank
setting-line warns name [] c h = absurd cc
setting-line warns name (b ∷ s) c h = rw (h.0, h.1) refl

node-line :
    (warns : Bool) (l : Line) (c : Config)
    → IsLine l
    → (c' : Config) × (config_node warns (item_of l).node (item_of l) c ≡ ok c')
      × ((name : Bytes) → (get name c').0 ≡ last_value name (l ∷ []) (get name c).0)
node-line warns (Line.setting name value) c h =
    (set name value c, setting-line warns name value c h, λ key. get-set key name value c)
node-line warns (Line.remark node) c h =
    (c, remark-line warns node (item_of (Line.remark node)) c h, λ key. refl)

last_value-cons :
    (name : Bytes) (l : Line) (ls : List Line) (before : Option Bytes)
    → last_value name ls (last_value name (l ∷ []) before) ≡ last_value name (l ∷ ls) before
last_value-cons name (Line.setting key value) ls before = refl
last_value-cons name (Line.remark node) ls before = refl

-- The loader returns on every document that has a line for each variable, and remarks: each variable
-- then has the value of its last line, or, where it has none, the value from before.
pub load-document :
    (warns : Bool) (ls : List Line) (c : Config)
    → AreLines ls
    → Ensures
        (load_xml_reader warns (document ls) c)
        (λ c'. (name : Bytes) → (get name c').0 ≡ last_value name ls (get name c).0)
unfolding load_xml_reader
load-document warns [] c h = λ name. refl
load-document warns (l ∷ ls) c (h, hs) =
    let (c', done, first) = node-line warns l c h in
    rw done (
      Ensures-weaken (load_xml_reader warns (document ls) c') _ _ (load-document warns ls c' hs)
        (λ c'' rest name.
          rest name
          ∙ ap (last_value name ls) (first name)
          ∙ last_value-cons name l ls (get name c).0))
