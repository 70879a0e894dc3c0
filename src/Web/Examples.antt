-- ===== src/Web/Examples.antt =====
-- Runs of the URL codec, the forms and the response loop.
use easygametools.Base.{
  ◌+◌, ◌≡◌, ◌≤◌, refl, some, [], ◌∷◌, arith, length, take, if◌then◌else◌, length-take,
}
use easygametools.Base.Int.{pos}
use easygametools.Base.Text.{Bytes, codes}
use easygametools.Base.Outcome.{ok}
use easygametools.Web.Codec.{encode, decode, encode_char, is_ordinary_char, print_hex}
use easygametools.Web.Codec.Laws.{encode-decode}
use easygametools.Web.Form.{
  WebForm, new_web_form, put_variable, get_variable, same_name, is_duplicate_var, has_var,
}
use easygametools.Web.Form.Laws.{IsParallel, get-put_variable}
use easygametools.Web.Body.{
  Chunk, IsBounded, read_body, to_read, read_body-le, read_body-pieces, pieces,
}

encode_text : encode (codes "a b&c=%") ≡ ok (codes "a+b%26c%3d%25")
unfolding encode encode_char is_ordinary_char print_hex
encode_text = refl

encode-decode_example :
    (e : Bytes) × (encode (codes "a b&c=%") ≡ ok e) × (decode e ≡ ok (codes "a b&c=%"))
encode-decode_example = encode-decode (codes "a b&c=%") (omega arith)

abbrev one_variable : WebForm
one_variable = record (new_web_form (pos 80)) { vars = codes "gameId" ∷ []; vals = codes "7" ∷ [] }

abbrev two_variables : WebForm
two_variables = record (new_web_form (pos 80)) {
  vars = codes "gameId" ∷ codes "host" ∷ [];
  vals = codes "7" ∷ codes "localhost" ∷ [];
}

put_host : put_variable (codes "host") (codes "localhost") one_variable ≡ ok two_variables
unfolding put_variable is_duplicate_var has_var same_name
put_host = refl

get-put_variable_example :
    IsParallel two_variables
    × (get_variable (codes "HOST") two_variables ≡ (
        if same_name (codes "HOST") (codes "host")
        then ok (codes "localhost")
        else get_variable (codes "HOST") one_variable))
get-put_variable_example =
    get-put_variable one_variable two_variables (codes "host") (codes "localhost") (codes "HOST")
      refl put_host

-- A server that announces nine bytes more than it has.
abbrev greedy : Bytes → Chunk
greedy d = record { available = length d + 9; read = λ n. some (take n d) }

greedy-IsBounded : (d : Bytes) → length d ≤ 8191 → IsBounded (greedy d)
greedy-IsBounded d fits = record {
  unwrapped = omega arith;
  bounded = λ n b e. ground (arith, length-take n d);
}

read_greedy : read_body [] (greedy (codes "abc") ∷ []) ≡ ok (codes "abc")
unfolding read_body to_read
read_greedy = refl

read_body-le_example : length (codes "abc") ≤ 8191
read_body-le_example =
    read_body-le [] (greedy (codes "abc") ∷ []) (codes "abc")
      (greedy-IsBounded (codes "abc") (omega arith), tt) (omega arith) read_greedy

read_body-pieces_example : read_body [] (pieces (codes "ab" ∷ codes "c" ∷ [])) ≡ ok (codes "abc")
read_body-pieces_example =
    read_body-pieces (codes "ab" ∷ codes "c" ∷ []) (omega arith) (omega arith)
