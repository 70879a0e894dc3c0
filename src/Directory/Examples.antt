-- ===== src/Directory/Examples.antt =====
-- Runs of the directory client against a server that answers every request alike.
use easygametools.Base.{Option, some, none, true, List, [], ◌∷◌, ◌≡◌, refl}
use easygametools.Base.Int.{pos}
use easygametools.Base.Text.{Bytes, codes}
use easygametools.Base.Decimal.{atol, atol_signed, scan_digits}
use easygametools.Base.Table.{lookup}
use easygametools.Base.Outcome.{ok}
use easygametools.Xml.{is_blank, node_name, copy_name, read_id, Node, element, text, element_end}
use easygametools.Xml.User.{User, load_user, load_user_loop, user_node, user_text, user_element}
use easygametools.Web.Body.{read_body, to_read, pieces}
use easygametools.Web.Codec.{encode, encode_char, is_ordinary_char, print_hex}
use easygametools.Web.Form.{WebForm, put_variable, is_duplicate_var, has_var, same_name}
use easygametools.Web.Request.{
  snprintf, send_request, request_of, form_action, method_of, script_with, headers_of, post_headers,
  receive, c_string, Internet, Request,
}
use easygametools.Directory.{
  path_of, create_web_request, finish_login, is_ok_status, read_user, read_response, Directory,
  login, put_variables, agent,
}
use easygametools.Directory.Session.{credentials, LoginOutcome, login_session}

-- The document that the parser finds in each response.
abbrev pub user_nodes : Bytes → Option (List Node)
user_nodes _ = some (
    element (some (codes "user")) ((codes "id", codes "42") ∷ [])
    ∷ element (some (codes "username")) []
    ∷ text (codes "bob")
    ∷ element_end
    ∷ element_end
    ∷ [])

abbrev pub server : Internet
server = record {
  opened = true;
  reply = λ q. record {
    sent = true;
    status_code = some (codes "200");
    set_cookie = some (codes "JSESSIONID=1");
    chunks = pieces (codes "<user/>" ∷ []);
  };
}

abbrev pub local : Directory
local = record {
  host_name = codes "localhost";
  port = pos 11223;
  context = codes "/directory";
  session_id = none;
}

abbrev pub bob : User
bob = record { user_id = some (pos 42); username = some (codes "bob") }

abbrev logged_in : Directory
logged_in = record local { session_id = some (codes "JSESSIONID=1") }

bob_logs_in :
    login server user_nodes (codes "bob") (codes "secret") local ≡ ok (some bob, logged_in)
unfolding login path_of create_web_request put_variable is_duplicate_var has_var same_name snprintf
    send_request request_of form_action encode encode_char is_ordinary_char print_hex method_of
    script_with headers_of post_headers receive c_string read_body to_read finish_login is_ok_status
    read_user read_response atol atol_signed scan_digits lookup load_user load_user_loop user_node
    user_text user_element is_blank node_name copy_name read_id
bob_logs_in = refl

login_session_example :
    (f : WebForm) × (path : Bytes) × (q : Request) × (path_of local (codes "/login/login")
      ≡ ok path)
    × (put_variables
          (credentials (codes "bob") (codes "secret"))
          (create_web_request local path (codes "POST"))
        ≡ ok f)
    × (request_of agent none f ≡ ok q)
    × LoginOutcome user_nodes (server.reply q) local (some bob) logged_in
login_session_example =
    login_session server user_nodes (codes "bob") (codes "secret") local logged_in (some bob)
      bob_logs_in
