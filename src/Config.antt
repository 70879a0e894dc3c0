-- ===== src/Config.antt =====
-- `ConfigLoader` of game_client/game_client/Config.h: the variables of config.xml.
--
-- `configVariables[name]` makes an entry with a null pointer where there is none, so that reading a
-- variable changes the table: the readers below return the table too.
pub mod Loader
pub mod Document
pub mod Examples
use easygametools.Base.{
  Option, none, some, List, [], ◌∷◌, Bool, true, false, if◌then◌else◌, map, ℕ, ◌≡◌, refl, arith,
  Option-cases, inl, inr, ap, ◌∙◌, sym,
}
use easygametools.Base.Int.{ℤ, pos}
use easygametools.Base.Text.{Bytes, codes, strncmp_eq, to_lower}
use easygametools.Base.Decimal.{atol}
use easygametools.Base.Table.{Table, lookup, insert, bytes_eq, lookup-insert, beq_refl, Eq}

abbrev pub Config : Type 0
Config = Table Bytes (Option Bytes)

-- `ConfigLoader::get`
unfoldable pub get : Bytes → Config → Option Bytes × Config
get name c = elim (lookup name c) [ none ↦ (none, insert name none c) | some v ↦ (v, c) ]

-- `ConfigLoader::set`
unfoldable pub set : Bytes → Bytes → Config → Config
set name value c = insert name (some value) c

int_of : Option Bytes → ℤ
int_of none = pos 0
int_of (some value) = atol value

-- `ConfigLoader::getInt`
unfoldable pub get_int : Bytes → Config → ℤ × Config
unfolding get int_of
get_int name c = let (v, c') = get name c in (int_of v, c')

-- `ConfigLoader::getBool`: `strlwr` writes the lower case into the table.
unfoldable pub get_bool : Bytes → Config → Bool × Config
unfolding get
get_bool name c =
    let (v, c') = get name c in
    elim v [
      | none ↦ (false, c')
      | some value ↦ (
        strncmp_eq (codes "true") (map to_lower value) 4,
        insert name (some (map to_lower value)) c',
      )
    ]

-- A read, of whatever variable, changes the value of none.
pub get-get : (name key : Bytes) (c : Config) → (get name (get key c).1).0 ≡ (get name c).0
unfolding get
get-get name key c = ground (arith, lookup-insert key name none c, bytes_eq.beq_iff key name)

-- A variable has the value that was set last, and setting it changes no other.
pub get-set :
    (name key value : Bytes) (c : Config)
    → (get name (set key value c)).0
      ≡ (if bytes_eq.beq key name then some value else (get name c).0)
unfolding get set
get-set name key value c = ground (arith, lookup-insert key name (some value) c)
