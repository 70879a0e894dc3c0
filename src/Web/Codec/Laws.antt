-- ===== src/Web/Codec/Laws.antt =====
-- The round trip of the URL codec, and where the encoder leaves its buffer.
use easygametools.Base.{
  ℕ, ◌+◌, ◌*◌, ◌/◌, ◌%◌, ◌≤◌, ◌<◌, ◌≡◌, refl, ap, ◌∙◌, ◌≢◌, true, false, inl, inr, [], ◌∷◌, ◌++◌,
  arith, ◌==◌, if◌then◌else◌, All, Bool-cases, ==_iff,
}
use easygametools.Base.Text.{Bytes}
use easygametools.Base.Outcome.{ok, err, buffer_overflow, ◌>>=◌, Ensures, Ensures-bind, Ensures-eq}
use easygametools.Web.Codec.{
  encode_char, encode, is_ordinary_char, print_hex, decode, get_as_dec, convert_to_dec, print_char,
  hex_digit,
}

-- What `decode` makes of the head of a longer text.
decode_plain :
    (c : ℕ) (s : Bytes)
    → c ≢ b'%'
    → decode (c ∷ s) ≡ (decode s >>= λ r. ok ((if c == b'+' then b' ' else c) ∷ r))
unfolding decode
decode_plain c [] h = ground arith
decode_plain c (a ∷ []) h = ground arith
decode_plain c (a ∷ b ∷ s) h = ground arith

decode_hex :
    (a b : ℕ) (s : Bytes)
    → decode (b'%' ∷ a ∷ b ∷ s)
      ≡ (decode s >>= λ r. ok (print_char (convert_to_dec (a ∷ b ∷ [])) ++ r))
unfolding decode
decode_hex a b s = refl

get_as_dec-hex_digit : (d : ℕ) → d < 16 → get_as_dec (hex_digit d) ≡ d
unfolding get_as_dec
get_as_dec-hex_digit d h = ground arith

print_char_self : (c : ℕ) → 0 < c → c < 256 → print_char c ≡ c ∷ []
unfolding print_char
print_char_self c lo hi = ground arith

print_char-hex :
    (c : ℕ)
    → 16 ≤ c
    → c < 128
    → print_char (convert_to_dec (hex_digit (c / 16) ∷ hex_digit (c % 16) ∷ [])) ≡ c ∷ []
unfolding convert_to_dec
print_char-hex c lo hi =
    ap print_char (
      omega (
        arith,
        get_as_dec-hex_digit (c / 16) (omega arith),
        get_as_dec-hex_digit (c % 16) (omega arith),
      ))
    ∙ print_char_self c (omega arith) (omega arith)

-- The characters that the encoder prints in two digits or less, and the decoder reads back.
abbrev pub IsEncodable : ℕ → Type 0
IsEncodable c = (16 ≤ c) × (c < 128)

ordinary_plain : (c : ℕ) → is_ordinary_char c ≡ true → (c ≢ b'%') × ((c == b'+') ≡ false)
unfolding is_ordinary_char
ordinary_plain c h = (λ e. ground arith, ground arith)

print_hex-encodable :
    (c : ℕ) → IsEncodable c → print_hex c ≡ ok (b'%' ∷ hex_digit (c / 16) ∷ hex_digit (c % 16) ∷ [])
unfolding print_hex
print_hex-encodable c h = ground arith

-- The decoder on the code of one character, with any text behind it.
encode_char-Ensures :
    (c : ℕ)
    → IsEncodable c
    → Ensures (encode_char c) (λ e. (t : Bytes) → decode (e ++ t) ≡ (decode t >>= λ r. ok (c ∷ r)))
unfolding encode_char
encode_char-Ensures c h = elim (Bool-cases (is_ordinary_char c)) [
  | inl plain ↦
      rw plain
        (λ t. decode_plain c t (ordinary_plain c plain).0 ∙ rw ((ordinary_plain c plain).1) refl)
  | inr special ↦ elim (Bool-cases (c == b' ')) [
    | inl space ↦
        rw (special, space)
          λ t.
            decode_plain b'+' t (λ e. omega arith)
            ∙ ap (λ (k : ℕ). decode t >>= λ r. ok (k ∷ r)) (omega (arith, (==_iff c b' ').0 space))
    | inr other ↦
        rw (special, other, print_hex-encodable c h)
          λ t.
            decode_hex (hex_digit (c / 16)) (hex_digit (c % 16)) t
            ∙ rw (print_char-hex c h.0 h.1) refl
  ]
]

decode_nil : decode [] ≡ ok []
unfolding decode
decode_nil = refl

encode-Ensures : (s : Bytes) → All IsEncodable s → Ensures (encode s) (λ e. decode e ≡ ok s)
unfolding encode
encode-Ensures [] h = decode_nil
encode-Ensures (c ∷ s) h =
    Ensures-bind (encode_char c) _
      (λ e. (t : Bytes) → decode (e ++ t) ≡ (decode t >>= λ r. ok (c ∷ r)))
      (λ e. decode e ≡ ok (c ∷ s)) (encode_char-Ensures c h.0)
      λ e he.
        Ensures-bind (encode s) _ (λ r. decode r ≡ ok s) (λ r. decode r ≡ ok (c ∷ s))
          (encode-Ensures s h.1) (λ r hr. he r ∙ rw hr refl)

-- A text of bytes from 16 to 127 is encoded without a fault, and decodes to itself.
pub encode-decode :
    (s : Bytes) → All IsEncodable s → (e : Bytes) × (encode s ≡ ok e) × (decode e ≡ ok s)
encode-decode s h = Ensures-eq (encode s) (λ e. decode e ≡ ok s) (encode-Ensures s h)

encode_char-ok : (c : ℕ) → c < 128 → Ensures (encode_char c) (λ e. Unit)
unfolding encode_char print_hex
encode_char-ok c h = ground arith

encode_char-overflow : (c : ℕ) → 128 ≤ c → encode_char c ≡ err buffer_overflow
unfolding encode_char print_hex is_ordinary_char
encode_char-overflow c h = ground arith

-- The first byte of 128 or more makes the encoder print past `tmp`, whatever follows.
encode-overflow :
    (xs : Bytes) (c : ℕ) (ys : Bytes)
    → All (λ x. x < 128) xs
    → 128 ≤ c
    → encode (xs ++ c ∷ ys) ≡ err buffer_overflow
unfolding encode
encode-overflow [] c ys low high = rw (encode_char-overflow c high)
encode-overflow (x ∷ xs) c ys low high =
    let (e, p, _) = Ensures-eq (encode_char x) (λ e. Unit) (encode_char-ok x low.0) in
    rw (p, encode-overflow xs c ys low.1 high)

encode_char-control : (c : ℕ) → c < 16 → encode_char c ≡ ok (b'%' ∷ hex_digit c ∷ [])
unfolding encode_char print_hex is_ordinary_char
encode_char-control c h = ground arith

encode_char-decimal : (d : ℕ) → d < 10 → encode_char (b'0' + d) ≡ ok ((b'0' + d) ∷ [])
unfolding encode_char is_ordinary_char
encode_char-decimal d h = ground arith

get_as_dec-decimal : (d : ℕ) → d < 10 → get_as_dec (b'0' + d) ≡ d
unfolding get_as_dec
get_as_dec-decimal d h = ground arith

convert_to_dec-control :
    (c d : ℕ) → c < 16 → d < 10 → convert_to_dec (hex_digit c ∷ (b'0' + d) ∷ []) ≡ 16 * c + d
unfolding convert_to_dec
convert_to_dec-control c d h k = omega (arith, get_as_dec-hex_digit c h, get_as_dec-decimal d k)

-- A byte below 16 is encoded by one digit, so that the decoder takes the next character for the
-- second: before a decimal digit `d` the two come back as the one byte `16 * c + d`.
encode_control_char :
    (c d : ℕ)
    → 1 ≤ c
    → c < 16
    → d < 10
    → (encode (c ∷ (b'0' + d) ∷ []) >>= decode) ≡ ok ((16 * c + d) ∷ [])
unfolding encode
encode_control_char c d lo hi dec =
    rw (encode_char-control c hi, encode_char-decimal d dec)
      (decode_hex (hex_digit c) (b'0' + d) []
        ∙ rw
            (
              decode_nil,
              convert_to_dec-control c d hi dec,
              print_char_self (16 * c + d) (omega arith) (omega arith),
            )
            refl)
