-- ===== src/Web/Form.antt =====
-- The variables of `WebForm`: game_client/game_client/Web.h, Web.cpp. The WinINet handles of the class
-- belong to `Request`, which makes and closes them within one call.
pub mod Laws
use easygametools.Base.{
  Bool, true, false, Option, none, some, List, [], ◌∷◌, ◌++◌, map, ℕ, if◌then◌else◌,
}
use easygametools.Base.Int.{ℤ}
use easygametools.Base.Text.{Bytes, codes, to_lower, strcmp_eq}
use easygametools.Base.Outcome.{Result, ok, err, unterminated, web_form_error}

pub record WebForm : Type 0 where
  pub vars : List Bytes
  pub vals : List Bytes
  pub host : Bytes
  pub script_file : Bytes
  pub script_method : Bytes
  pub port : ℤ
  pub response_status : Option ℤ
  pub cookies : Option Bytes
  pub response_data : Option Bytes

-- `WebForm()`. Its `string m_strHostName = "localhost:8080"` and the like declare local variables, so
-- that the members keep their empty defaults.
abbrev pub new_web_form : ℤ → WebForm
new_web_form port = record {
  vars = [];
  vals = [];
  host = [];
  script_file = [];
  script_method = [];
  port = port;
  response_status = none;
  cookies = none;
  response_data = none;
}

-- `strcmpi(a, b) == 0`
unfoldable pub same_name : Bytes → Bytes → Bool
same_name a b = strcmp_eq (map to_lower a) (map to_lower b)

-- The loop of `WebForm::isDuplicateVar`.
unfoldable pub has_var : Bytes → List Bytes → Bool
has_var name [] = false
has_var name (x ∷ xs) = if same_name name x then true else has_var name xs

-- `WebForm::isDuplicateVar`
unfoldable pub is_duplicate_var : Bytes → WebForm → Bool
is_duplicate_var name f = has_var name f.vars

-- `WebForm::putVariable`
unfoldable pub put_variable : Bytes → Bytes → WebForm → Result WebForm
put_variable name value f =
    if is_duplicate_var name f
    then err (web_form_error (codes "Duplicate variable name - " ++ name))
    else ok (record f { vars = f.vars ++ name ∷ []; vals = f.vals ++ value ∷ [] })

-- The loop of `WebForm::getVariable`; an index past `m_vctVals` is undefined behaviour.
unfoldable pub find_var : Bytes → List Bytes → List Bytes → Result Bytes
find_var name [] vals = err (web_form_error (codes "Variable not found - " ++ name))
find_var name (x ∷ xs) [] = if same_name name x then err unterminated else find_var name xs []
find_var name (x ∷ xs) (v ∷ vs) = if same_name name x then ok v else find_var name xs vs

-- `WebForm::getVariable`
unfoldable pub get_variable : Bytes → WebForm → Result Bytes
get_variable name f = find_var name f.vars f.vals

-- `WebForm::clearVariables`
unfoldable pub clear_variables : WebForm → WebForm
clear_variables f = record f { vars = []; vals = [] }
