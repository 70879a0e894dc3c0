-- ===== src/Web/Codec.antt =====
-- `URLEncoder` and `URLDecoder` of game_client/game_client/Web.cpp, over the bytes 1 to 255 of a C
-- string. `char` is signed.
pub mod Laws
use easygametools.Base.{
  ℕ, ◌+◌, ◌-◌, ◌*◌, ◌/◌, ◌%◌, Bool, ◌&&◌, ◌||◌, List, [], ◌∷◌, ◌++◌, ltb, leb, ◌==◌, if◌then◌else◌,
}
use easygametools.Base.Text.{Bytes, codes, to_lower, is_digit}
use easygametools.Base.Outcome.{Result, ok, err, buffer_overflow, unterminated, ◌>>=◌}

-- `URLEncoder::isOrdinaryChar`
unfoldable pub is_ordinary_char : ℕ → Bool
is_ordinary_char c =
    let ch = to_lower c in (leb b'a' ch && leb ch b'z') || (leb b'0' ch && leb ch b'9')

abbrev pub hex_digit : ℕ → ℕ
hex_digit d = if ltb d 10 then b'0' + d else d - 10 + b'a'

-- `sprintf(tmp, "%%%x", c)` into `char tmp[6]`: a negative `char` prints eight digits.
unfoldable pub print_hex : ℕ → Result Bytes
print_hex c =
    if leb 128 c
    then err buffer_overflow
    else if ltb c 16
    then ok (b'%' ∷ hex_digit c ∷ [])
    else ok (b'%' ∷ hex_digit (c / 16) ∷ hex_digit (c % 16) ∷ [])

unfoldable pub encode_char : ℕ → Result Bytes
unfolding is_ordinary_char print_hex
encode_char c =
    if is_ordinary_char c then ok (c ∷ []) else if c == b' ' then ok (b'+' ∷ []) else print_hex c

-- `URLEncoder::encode`
unfoldable pub encode : Bytes → Result Bytes
encode [] = ok []
encode (c ∷ s) = do e ← encode_char c; r ← encode s; ok (e ++ r)

-- `URLDecoder::getAsDec`, with the `atoi` behind it: the value of a digit, `g` included.
unfoldable pub get_as_dec : ℕ → ℕ
get_as_dec c =
    let ch = to_lower c in
    if leb b'a' ch && leb ch b'g' then ch - b'a' + 10 else if is_digit c then c - b'0' else 0

-- `URLDecoder::convertToDec`, of the one or two digits that `decode` hands over.
unfoldable pub convert_to_dec : Bytes → ℕ
unfolding get_as_dec
convert_to_dec [] = 0
convert_to_dec (a ∷ []) = get_as_dec a
convert_to_dec (a ∷ b ∷ _) = 16 * get_as_dec a + get_as_dec b

-- `sprintf(tmp, "%c", n)`, as the C string that is then appended.
unfoldable pub print_char : ℕ → Bytes
print_char n = if n % 256 == 0 then [] else (n % 256) ∷ []

-- `URLDecoder::decode`. Behind the last byte the buffer has the closing NUL, and nothing more.
unfoldable pub decode : Bytes → Result Bytes
unfolding convert_to_dec print_char
decode [] = ok []
decode (c ∷ []) =
    if c == b'+' then ok (b' ' ∷ []) else if c == b'%' then err unterminated else ok (c ∷ [])
decode (c ∷ a ∷ []) =
    if c == b'%'
    then ok (print_char (convert_to_dec (a ∷ [])))
    else (do r ← decode (a ∷ []); ok ((if c == b'+' then b' ' else c) ∷ r))
decode (c ∷ a ∷ b ∷ s) =
    let skipped = decode s in
    let next = decode (a ∷ b ∷ s) in
    if c == b'%'
    then (do r ← skipped; ok (print_char (convert_to_dec (a ∷ b ∷ [])) ++ r))
    else (do r ← next; ok ((if c == b'+' then b' ' else c) ∷ r))
