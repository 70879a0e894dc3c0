-- ===== src/Web/Request.antt =====
-- `WebForm::sendRequest` of game_client/game_client/Web.cpp. WinINet is a parameter: what it answers to
-- a request is a `Reply`.
use easygametools.Base.{
  ℕ, Bool, Option, none, some, List, [], ◌∷◌, ◌++◌, ◌&&◌, ltb, ◌==◌, if◌then◌else◌, length,
}
use easygametools.Base.Int.{bits}
use easygametools.Base.Text.{Bytes, codes, strcmp_eq}
use easygametools.Base.Decimal.{atol}
use easygametools.Base.Outcome.{Result, ok, err, fatal, unterminated, ◌>>=◌, ◌>>◌, guard, or_error}
use easygametools.Web.Codec.{encode}
use easygametools.Web.Form.{WebForm}
use easygametools.Web.Body.{Chunk, read_body}

-- What is handed to `InternetConnect`, `HttpOpenRequest` and `HttpSendRequest`.
pub record Request : Type 0 where
  pub agent : Bytes
  pub server : Bytes
  pub port : ℕ
  pub verb : Bytes
  pub object_name : Bytes
  pub headers : Option Bytes
  pub content : Bytes

-- What WinINet answers to a request: whether `HttpSendRequest` succeeds, the status code and the cookie
-- that `HttpQueryInfo` finds, and the rounds in which there is more to read.
pub record Reply : Type 0 where
  pub sent : Bool
  pub status_code : Option Bytes
  pub set_cookie : Option Bytes
  pub chunks : List Chunk

-- Whether `InternetOpen` succeeds, and the answer to each request.
pub record Internet : Type 0 where
  pub opened : Bool
  pub reply : Request → Reply

-- `_snprintf(buf, n, …)` into `n + 1` bytes: a text of `n` bytes or more is not closed by a NUL.
unfoldable pub snprintf : ℕ → Bytes → Result Bytes
snprintf n s = if ltb (length s) n then ok s else err unterminated

-- A C string ends at its first NUL: `strdup(tempBuffer)`.
unfoldable pub c_string : Bytes → Bytes
c_string [] = []
c_string (c ∷ s) = let rest = c_string s in if c == 0 then [] else c ∷ rest

-- The loop that joins the variables; an index past `m_vctVals` is undefined behaviour.
unfoldable pub form_action : List Bytes → List Bytes → Result Bytes
form_action [] vals = ok []
form_action (x ∷ xs) [] = err unterminated
form_action (x ∷ []) (v ∷ vs) = do
  enc_var ← encode x
  enc_val ← encode v
  ok (enc_var ++ b'=' ∷ enc_val)
form_action (x ∷ y ∷ xs) (v ∷ vs) = do
  enc_var ← encode x
  enc_val ← encode v
  rest ← form_action (y ∷ xs) vs
  ok (enc_var ++ b'=' ∷ (enc_val ++ b'&' ∷ rest))

-- Any method but GET and POST is taken for GET.
unfoldable pub method_of : Bytes → Bytes
method_of m =
    if strcmp_eq m (codes "GET") then m else if strcmp_eq m (codes "POST") then m else codes "GET"

abbrev is_get : Bytes → Bool
is_get m = strcmp_eq m (codes "GET")

-- A GET request carries the variables behind the name of the script, and the form keeps that name.
unfoldable pub script_with : Bytes → Bytes → Bytes → Bytes
script_with method script action =
    if is_get method && ltb 0 (length action) then script ++ b'?' ∷ action else script

abbrev pub content_type : Bytes
content_type = codes "Content-Type: application/x-www-form-urlencoded" ++ 10 ∷ []

-- The headers of a POST request: `char headers[1024]`.
unfoldable pub post_headers : Option Bytes → Result Bytes
unfolding snprintf
post_headers none = snprintf 1023 content_type
post_headers (some session_id) =
    snprintf 1023 (content_type ++ codes "Cookie: " ++ session_id ++ 10 ∷ [])

unfoldable pub headers_of : Bytes → Option Bytes → Result (Option Bytes)
unfolding post_headers
headers_of method session_id =
    if is_get method then ok none else (do h ← post_headers session_id; ok (some h))

-- The request that a form makes. An `INTERNET_PORT` has 16 bits.
unfoldable pub request_of : Bytes → Option Bytes → WebForm → Result Request
unfolding method_of script_with headers_of
request_of agent session_id f = do
  action ← form_action f.vars f.vals
  let method = method_of f.script_method
  headers ← headers_of method session_id
  ok (record {
    agent = agent;
    server = f.host;
    port = bits 16 f.port;
    verb = method;
    object_name = script_with method f.script_file action;
    headers = headers;
    content = if is_get method then [] else action;
  })

-- A cookie replaces the one that the form has; without one the form keeps it.
abbrev pub new_cookies : Option Bytes → Option Bytes → Option Bytes
new_cookies none old = old
new_cookies (some c) old = some c

-- What the form takes from a reply.
unfoldable pub receive : Request → Reply → WebForm → Result WebForm
unfolding c_string
receive q r f = do
  guard r.sent (fatal "WebForm failed1")
  status ← or_error r.status_code (fatal "WebForm failed2")
  body ← read_body [] r.chunks
  ok (record f {
    script_file = q.object_name;
    response_status = some (atol status);
    cookies = new_cookies r.set_cookie f.cookies;
    response_data = some (c_string body);
  })

-- `WebForm::sendRequest`
unfoldable pub send_request : Internet → Bytes → Option Bytes → WebForm → Result WebForm
send_request net agent session_id f = do
  guard net.opened (fatal "Error:- InternetOpen()")
  q ← request_of agent session_id f
  receive q (net.reply q) f
