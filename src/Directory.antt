-- ===== src/Directory.antt =====
-- `DirectoryClient` of game_client/game_client/DirectoryClient.h and DirectoryClient.cpp: the calls of
-- the directory server. WinINet (`Internet`) and the XML parser are parameters; logging is left out.
-- A call that throws returns no state: what it wrote before is not seen.
pub mod Session
pub mod Examples
use Prim.Native.String.{String}
use easygametools.Base.{
  leb, not, ℕ, Bool, true, false, Option, none, some, List, [], ◌∷◌, ◌++◌, ltb, ◌==◌, if◌then◌else◌,
  length,
}
use easygametools.Base.Int.{ℤ, pos, leb_ℤ}
use easygametools.Base.Text.{Bytes, codes}
use easygametools.Base.Decimal.{print_int}
use easygametools.Base.Outcome.{Result, ok, err, fatal, null_pointer, ◌>>=◌, ◌>>◌, guard, or_error}
use easygametools.Xml.{Node, nothing}
use easygametools.Xml.User.{User, new_user, load_user}
use easygametools.Xml.ServerGame.{ServerGame, new_server_game, load_server_game}
use easygametools.Xml.GameList.{load_game_list}
use easygametools.Web.Form.{WebForm, new_web_form, put_variable}
use easygametools.Web.Request.{Internet, snprintf, send_request}
use easygametools.Config.{Config, get, get_int}

pub record Directory : Type 0 where
  pub host_name : Bytes
  pub port : ℤ
  pub context : Bytes
  pub session_id : Option Bytes

abbrev pub or_default : Option Bytes → Bytes → Bytes
or_default none d = d
or_default (some v) d = v

-- `DirectoryClient()`
unfoldable pub new_directory : Config → Directory × Config
new_directory c =
    let (host_name, c1) = get (codes "DirectoryClient.hostName") c in
    let (host_port, c2) = get_int (codes "DirectoryClient.hostPort") c1 in
    let (context, c3) = get (codes "DirectoryClient.context") c2 in
    (
      record {
        host_name = or_default host_name (codes "localhost");
        port = if leb_ℤ host_port (pos 1024) then pos 11223 else host_port;
        context = or_default context (codes "/");
        session_id = none;
      },
      c3,
    )

-- `createWebRequest`
unfoldable pub create_web_request : Directory → Bytes → Bytes → WebForm
create_web_request d script method = record (new_web_form d.port) {
  host = d.host_name;
  script_file = script;
  script_method = method;
}

-- The path of a method: `_snprintf(path, 254, "%s%s", …)`.
unfoldable pub path_of : Directory → Bytes → Result Bytes
path_of d method = snprintf 254 (d.context ++ method)

-- `response != 200` is `false`.
unfoldable pub is_ok_status : WebForm → Bool
is_ok_status f = elim f.response_status [
  | none ↦ false
  | some code ↦ elim code [ pos n ↦ n == 200 | _ ↦ false ]
]

-- `getResponseData`
abbrev pub response_data : WebForm → Bytes
response_data f = or_default f.response_data []

abbrev pub agent : Bytes
agent = codes "ROG"

-- The variables of a request, in turn.
abbrev pub put_variables : List (Bytes × Bytes) → WebForm → Result WebForm
put_variables [] f = ok f
put_variables ((name, value) ∷ rest) f = do f' ← put_variable name value f; put_variables rest f'

module _ (parse_xml : Bytes → Option (List Node)) where
  -- A new reader over the response, whose current node is none yet.
  unfoldable pub read_response : WebForm → String → Result (List Node)
  read_response f message = do
    nodes ← or_error (parse_xml (response_data f)) (fatal message)
    ok (nothing ∷ nodes)

  -- The user in a response, after `login` and `validateUser`.
  unfoldable pub read_user : WebForm → Result User
  unfolding read_response
  read_user f = do
    nodes ← read_response f "Cannot open config file."
    (u, _) ← load_user new_user nodes
    ok u

  unfoldable pub read_game : WebForm → Result ServerGame
  unfolding read_response
  read_game f = do
    nodes ← read_response f "Cannot open XML stream."
    (g, _) ← load_server_game new_server_game nodes
    ok g

  -- What `login` does with the response. Without a cookie `strdup` reads through a null pointer.
  unfoldable pub finish_login : WebForm → Directory → Result (Option User × Directory)
  finish_login f d = if not (is_ok_status f) then ok (none, d) else do
    session_id ← or_error f.cookies null_pointer
    u ← read_user f
    ok (some u, record d { session_id = some session_id })

module _ (net : Internet) (parse_xml : Bytes → Option (List Node)) where
  -- `DirectoryClient::login`
  unfoldable pub login : Bytes → Bytes → Directory → Result (Option User × Directory)
  login username password d = do
    path ← path_of d (codes "/login/login")
    f ←
        put_variables ((codes "username", username) ∷ (codes "password", password) ∷ [])
          (create_web_request d path (codes "POST"))
    f' ← send_request net agent none f
    finish_login parse_xml f' d

  -- `DirectoryClient::validateUser`, which sends no session.
  unfoldable pub validate_user : ℤ → ℤ → Directory → Result (Option User)
  validate_user user_id game_id d = do
    path ← path_of d (codes "/gamer/validateUser")
    f ←
        put_variables
          ((codes "userId", print_int user_id) ∷ (codes "gameId", print_int game_id) ∷ [])
          (create_web_request d path (codes "POST"))
    f' ← send_request net agent none f
    if not (is_ok_status f') then ok none else do u ← read_user parse_xml f'; ok (some u)

  -- `DirectoryClient::getGameList`
  unfoldable pub get_game_list : Directory → Result (Option (List ServerGame))
  get_game_list d = do
    path ← path_of d (codes "/gamer/findGames")
    f ← put_variables ((codes "page", codes "1") ∷ []) (create_web_request d path (codes "POST"))
    f' ← send_request net agent d.session_id f
    if not (is_ok_status f') then ok none else do
      nodes ← read_response parse_xml f' "Cannot open config file."
      (games, _) ← load_game_list nodes
      ok (some games)

  -- `DirectoryClient::createGame`
  unfoldable pub create_game : Bytes → ℤ → Bytes → Directory → Result (Option ServerGame)
  create_game host_name port host_guid d = do
    path ← path_of d (codes "/gamer/startGame")
    port_text ← snprintf 24 (print_int port)
    f ←
        put_variables
          ((codes "host", host_name) ∷ (codes "port", port_text) ∷ (codes "guid", host_guid) ∷ [])
          (create_web_request d path (codes "POST"))
    f' ← send_request net agent d.session_id f
    if not (is_ok_status f') then ok none else do g ← read_game parse_xml f'; ok (some g)

  -- `DirectoryClient::updateGame`
  unfoldable pub update_game : ServerGame → Directory → Result ServerGame
  update_game game d = do
    path ← path_of d (codes "/gamer/update")
    game_text ← snprintf 254 (
        codes "<game id=\""
        ++ (print_int game.game_id
            ++ (codes "\"> <numberOfPlayers>"
                ++ (print_int game.number_of_players ++ codes "</numberOfPlayers> </game>"))))
    f ← put_variables ((codes "game", game_text) ∷ []) (create_web_request d path (codes "POST"))
    f' ← send_request net agent d.session_id f
    guard (is_ok_status f') (fatal "Could not update server game")
    read_game parse_xml f'

  -- `DirectoryClient::getUpdatedGame`
  unfoldable pub get_updated_game : ℤ → Directory → Result ServerGame
  get_updated_game game_id d = do
    path ← path_of d (codes "/gamer/get")
    id_text ← snprintf 254 (print_int game_id)
    f ← put_variables ((codes "gameId", id_text) ∷ []) (create_web_request d path (codes "POST"))
    f' ← send_request net agent d.session_id f
    guard (is_ok_status f') (fatal "Could not update server game")
    read_game parse_xml f'

  -- `DirectoryClient::releaseGame`
  unfoldable pub release_game : ℤ → ℤ → Bytes → Directory → Result (Unit {0})
  release_game game_id user_id next_host_guid d = do
    path ← path_of d (codes "/gamer/release")
    game_text ← snprintf 254 (print_int game_id)
    user_text ← snprintf 254 (print_int user_id)
    f ←
        put_variables
          ((codes "gameId", game_text)
            ∷ (codes "newHostUserId", user_text)
            ∷ (codes "newHostGuid", next_host_guid)
            ∷ [])
          (create_web_request d path (codes "POST"))
    f' ← send_request net agent d.session_id f
    guard (is_ok_status f') (fatal "Could not release server game")

  -- `DirectoryClient::adoptGame`, which does not look at the status of the response.
  unfoldable pub adopt_game : ℤ → Bytes → ℤ → Bytes → Directory → Result ServerGame
  adopt_game game_id host_name port host_guid d = do
    path ← path_of d (codes "/gamer/adopt")
    game_text ← snprintf 254 (print_int game_id)
    port_text ← snprintf 24 (print_int port)
    f ←
        put_variables
          ((codes "gameId", game_text)
            ∷ (codes "host", host_name)
            ∷ (codes "port", port_text)
            ∷ (codes "guid", host_guid)
            ∷ [])
          (create_web_request d path (codes "POST"))
    f' ← send_request net agent d.session_id f
    read_game parse_xml f'

  -- `DirectoryClient::deleteGame`
  unfoldable pub delete_game : ℤ → Directory → Result (Unit {0})
  delete_game game_id d = do
    path ← path_of d (codes "/gamer/stopGame")
    game_text ← snprintf 254 (print_int game_id)
    f ← put_variables ((codes "gameId", game_text) ∷ []) (create_web_request d path (codes "POST"))
    f' ← send_request net agent d.session_id f
    guard (is_ok_status f') (fatal "Could not remove server game")

  -- `DirectoryClient::getExternalIp`
  unfoldable pub get_external_ip : Directory → Result Bytes
  get_external_ip d = do
    path ← path_of d (codes "/gamer/getHostIp")
    f ← send_request net agent d.session_id (create_web_request d path (codes "GET"))
    guard (is_ok_status f) (fatal "Could not remove server game")
    guard (leb (length (response_data f)) 1023) (fatal "Could not remove server game")
    ok (response_data f)
