-- ===== src/Directory/Session.antt =====
-- The session of a directory client, and what its calls make of the status of a response.
use easygametools.Base.{
  ap, refl, ◌==◌, ==_iff, true, false, Option, none, some, List, [], ◌∷◌, ◌≡◌, sym, arith, ◌⊎◌, inl,
  inr, ◌≢◌, ◌∙◌, Option-cases, Bool-cases,
}
use easygametools.Base.Int.{ℤ, pos, negsuc}
use easygametools.Base.Text.{Bytes, codes}
use easygametools.Base.Decimal.{print_int, atol}
use easygametools.Base.Outcome.{
  Error, ok, fatal, null_pointer, >>=-cong, >>=_assoc, ◌>>=◌, guard, or_error, >>=-eq-ok,
}
use easygametools.Xml.{Node, nothing}
use easygametools.Xml.User.{User, new_user, load_user}
use easygametools.Web.Body.{read_body}
use easygametools.Web.Form.{WebForm, put_variable}
use easygametools.Web.Request.{
  Internet, Reply, Request, send_request, receive, request_of, snprintf, c_string, new_cookies,
}
use easygametools.Directory.{
  Directory, login, finish_login, adopt_game, is_ok_status, read_user, read_game, read_response,
  path_of, put_variables, create_web_request, agent,
}

put_variables-cookies :
    (vs : List (Bytes × Bytes)) (f f' : WebForm)
    → put_variables vs f ≡ ok f'
    → f'.cookies ≡ f.cookies
unfolding put_variable
put_variables-cookies [] f f' h = ground arith
put_variables-cookies ((name, value) ∷ vs) f f' h =
    let (f1, put, h1) = >>=-eq-ok (put_variable name value f) _ h in
    put_variables-cookies vs f1 f' h1 ∙ ground arith

abbrev pub credentials : Bytes → Bytes → List (Bytes × Bytes)
credentials username password = (codes "username", username) ∷ (codes "password", password) ∷ []

or_error-some {ℓ} :
    {A : Type ℓ} (o : Option A) (a : A) (e : Error) → or_error o e ≡ ok a → o ≡ some a
or_error-some none a e h = cc
or_error-some (some b) a e h = cc

is_ok_status-accepts :
    (z : ℤ) (f : WebForm) → f.response_status ≡ some z → is_ok_status f ≡ true → z ≡ pos 200
unfolding is_ok_status
is_ok_status-accepts (pos n) f has accepts =
    let test : (n == 200) ≡ true = rw has at accepts in ap pos (ground (arith, ==_iff n 200))
is_ok_status-accepts (negsuc n) f has accepts = ground arith

is_ok_status-refuses :
    (z : ℤ) (f : WebForm) → f.response_status ≡ some z → is_ok_status f ≡ false → z ≢ pos 200
unfolding is_ok_status
is_ok_status-refuses z f has refuses e = ground arith

-- The form when the reply is in it.
abbrev received_form : Request → Reply → Bytes → Bytes → WebForm → WebForm
received_form q r status body f = record f {
  script_file = q.object_name;
  response_status = some (atol status);
  cookies = new_cookies r.set_cookie f.cookies;
  response_data = some (c_string body);
}

new_cookies-fresh :
    (c old : Option Bytes) (s : Bytes) → old ≡ none → new_cookies c old ≡ some s → c ≡ some s
new_cookies-fresh none old s fresh h = cc
new_cookies-fresh (some c) old s fresh h = h

module _ (parse_xml : Bytes → Option (List Node)) where
  -- What a login makes of the reply to its request. Any status but 200 is a refusal, which changes nothing;
  -- with 200 the session is the cookie of the reply, and the user the one that its body describes.
  abbrev pub StatusOutcome : Bytes → Reply → Directory → Option User → Directory → Type 0
  StatusOutcome status r d o d' =
      (((atol status ≡ pos 200) → ⊥) × (o ≡ none) × (d' ≡ d))
      ⊎ ((u : User) × (cookie : Bytes) × (body : Bytes) × (nodes : List Node) × (rest : List Node)
          × (atol status ≡ pos 200)
          × (r.set_cookie ≡ some cookie)
          × (read_body [] r.chunks ≡ ok body)
          × (parse_xml (c_string body) ≡ some nodes)
          × (load_user new_user (nothing ∷ nodes) ≡ ok (u, rest))
          × (o ≡ some u)
          × (d' ≡ record d { session_id = some cookie }))

  abbrev pub LoginOutcome : Reply → Directory → Option User → Directory → Type 0
  LoginOutcome r d o d' =
      (status : Bytes) × (r.status_code ≡ some status) × StatusOutcome status r d o d'

  finish_login-received :
      (q : Request) (r : Reply) (status body : Bytes) (f : WebForm) (d d' : Directory)
      (o : Option User)
      → f.cookies ≡ none
      → read_body [] r.chunks ≡ ok body
      → finish_login parse_xml (received_form q r status body f) d ≡ ok (o, d')
      → StatusOutcome status r d o d'
  unfolding finish_login read_user read_response
  finish_login-received q r status body f d d' o fresh read h =
      let f' = received_form q r status body f in
      elim (Bool-cases (is_ok_status f')) [
        | inr refused ↦
            inl (is_ok_status-refuses (atol status) f' refl refused, ground arith, ground arith)
        | inl accepted ↦
            let h' = rw accepted at h in
            let (s, has, h1) = >>=-eq-ok (or_error f'.cookies null_pointer) _ h' in
            let (u, reads, done) = >>=-eq-ok (read_user parse_xml f') _ h1 in
            let (ns, r1, r2) =
              >>=-eq-ok (read_response parse_xml f' "Cannot open config file.") _ reads in
            let (nodes, parsed, r3) =
              >>=-eq-ok (or_error (parse_xml (c_string body)) (fatal "Cannot open config file.")) _
                r1 in
            let ((u', rest), loaded, r4) = >>=-eq-ok (load_user new_user ns) _ r2 in
            let same_user : u' ≡ u = cc in
            let same_nodes : nothing ∷ nodes ≡ ns = cc in
            inr (
              u,
              s,
              body,
              nodes,
              rest,
              is_ok_status-accepts (atol status) f' refl accepted,
              new_cookies-fresh r.set_cookie f.cookies s fresh
                  (or_error-some f'.cookies s null_pointer has),
              read,
              or_error-some (parse_xml (c_string body)) nodes (fatal "Cannot open config file.")
                  parsed,
              cc,
              cc,
              cc,
            )
      ]

  finish_login-LoginOutcome :
      (q : Request) (r : Reply) (f f' : WebForm) (d d' : Directory) (o : Option User)
      → f.cookies ≡ none
      → receive q r f ≡ ok f'
      → finish_login parse_xml f' d ≡ ok (o, d')
      → LoginOutcome r d o d'
  unfolding finish_login receive read_user read_response is_ok_status
  finish_login-LoginOutcome q r f f' d d' o fresh received h =
      let (_, _, h1) = >>=-eq-ok (guard r.sent (fatal "WebForm failed1")) _ received in
      let (status, has_status, h2) =
        >>=-eq-ok (or_error r.status_code (fatal "WebForm failed2")) _ h1 in
      let (body, read, h3) = >>=-eq-ok (read_body [] r.chunks) _ h2 in
      let filled : received_form q r status body f ≡ f' = cc in
      (
        status,
        or_error-some r.status_code status (fatal "WebForm failed2") has_status,
        finish_login-received q r status body f d d' o fresh read (rw (sym filled) at h),
      )

module _ (net : Internet) (parse_xml : Bytes → Option (List Node)) where
  -- A login that returns has posted the name and the password, and does what the reply says. Where the
  -- status of the reply is not 200 it returns no user and changes nothing. Where it is 200 it returns the
  -- user that the document of the reply describes, and the session is the cookie of the reply; host, port
  -- and context stay.
  pub login_session :
      (username password : Bytes) (d d' : Directory) (o : Option User)
      → login net parse_xml username password d ≡ ok (o, d')
      → (f : WebForm) × (path : Bytes) × (q : Request) × (path_of d (codes "/login/login")
          ≡ ok path)
        × (put_variables (credentials username password) (create_web_request d path (codes "POST"))
            ≡ ok f)
        × (request_of agent none f ≡ ok q)
        × LoginOutcome parse_xml (net.reply q) d o d'
  unfolding login send_request create_web_request
  login_session username password d d' o h =
      let (path, is_path, h1) = >>=-eq-ok (path_of d (codes "/login/login")) _ h in
      let (f, put, h2) =
        >>=-eq-ok
          (put_variables (credentials username password) (create_web_request d path (codes "POST")))
          _ h1 in
      let (f', sent, h3) = >>=-eq-ok (send_request net agent none f) _ h2 in
      let (_, _, s1) = >>=-eq-ok (guard net.opened (fatal "Error:- InternetOpen()")) _ sent in
      let (q, made, received) = >>=-eq-ok (request_of agent none f) _ s1 in
      (
        f,
        path,
        q,
        is_path,
        put,
        made,
        finish_login-LoginOutcome parse_xml q (net.reply q) f f' d d' o
            (put_variables-cookies (credentials username password) _ f put) received h3,
      )

-- The network, with every status code replaced.
abbrev pub with_status : Bytes → Internet → Internet
with_status code net = record net { reply = λ q. record (net.reply q) { status_code = some code } }

-- Each answer of the server has a status code.
abbrev HasStatus : Internet → Type 0
HasStatus net = (q : Request) → (net.reply q).status_code ≢ none

module _ (net : Internet) (parse_xml : Bytes → Option (List Node)) (code : Bytes) where
  receive-status :
      (q : Request) (r : Reply) (f : WebForm)
      → r.status_code ≢ none
      → (receive q (record r { status_code = some code }) f >>= read_game parse_xml)
        ≡ (receive q r f >>= read_game parse_xml)
  unfolding receive read_game read_response
  receive-status q r f has = elim (Option-cases r.status_code) [
    | inl missing ↦ absurd (has missing)
    | inr (c, e) ↦ ground arith
  ]

  send_request-status :
      (session_id : Option Bytes) (f : WebForm)
      → HasStatus net
      → (send_request (with_status code net) agent session_id f >>= read_game parse_xml)
        ≡ (send_request net agent session_id f >>= read_game parse_xml)
  unfolding send_request
  send_request-status session_id f has =
      >>=_assoc (guard net.opened (fatal "Error:- InternetOpen()")) _ _
      ∙ >>=-cong (guard net.opened (fatal "Error:- InternetOpen()")) _ _ (λ _.
        >>=_assoc (request_of agent session_id f) _ _
        ∙ >>=-cong (request_of agent session_id f) _ _
            (λ q. receive-status q (net.reply q) f (has q))
        ∙ sym (>>=_assoc (request_of agent session_id f) _ _))
      ∙ sym (>>=_assoc (guard net.opened (fatal "Error:- InternetOpen()")) _ _)

  -- What `adoptGame` returns does not depend on the status of the response: an answer of 500 is read
  -- as the game record just as one of 200 is.
  adopt_game-status :
      (game_id port : ℤ) (host_name host_guid : Bytes) (d : Directory)
      → HasStatus net
      → adopt_game (with_status code net) parse_xml game_id host_name port host_guid d
        ≡ adopt_game net parse_xml game_id host_name port host_guid d
  unfolding adopt_game
  adopt_game-status game_id port host_name host_guid d has =
      >>=-cong (path_of d (codes "/gamer/adopt")) _ _ λ path.
        >>=-cong (snprintf 254 (print_int game_id)) _ _ λ game_text.
          >>=-cong (snprintf 24 (print_int port)) _ _ λ port_text.
            >>=-cong
              (put_variables
                ((codes "gameId", game_text)
                  ∷ (codes "host", host_name)
                  ∷ (codes "port", port_text)
                  ∷ (codes "guid", host_guid)
                  ∷ [])
                (create_web_request d path (codes "POST")))
              _ _ λ f. send_request-status d.session_id f has
