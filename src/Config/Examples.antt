-- ===== src/Config/Examples.antt =====
-- Runs of the configuration table.
use easygametools.Base.{some, true, List, [], ◌∷◌, ◌≡◌, refl}
use easygametools.Base.Text.{codes, Bytes}
use easygametools.Base.Table.{insert, lookup}
use easygametools.Base.Outcome.{Ensures}
use easygametools.Xml.{Node, is_blank}
use easygametools.Config.{Config, get, set}
use easygametools.Config.Loader.{load_xml_reader}
use easygametools.Config.Document.{Line, document, last_value, load-document}

abbrev one_setting : Config
one_setting = set (codes "appClassName") (codes "HelloWorld") []

get-set_host :
    (get (codes "host") (set (codes "host") (codes "rog") one_setting)).0 ≡ some (codes "rog")
unfolding get set lookup insert
get-set_host = refl

abbrev two_lines : List Line
two_lines =
    Line.remark Node.comment
    ∷ Line.setting (codes "host") (codes "old")
    ∷ Line.setting (codes "host") (codes "rog")
    ∷ []

load-document_example :
    Ensures
      (load_xml_reader true (document two_lines) one_setting)
      (λ c'. (name : Bytes) → (get name c').0 ≡ last_value name two_lines (get name one_setting).0)
unfolding is_blank
load-document_example =
    load-document true two_lines one_setting (refl, ((refl, refl), ((refl, refl), tt)))
