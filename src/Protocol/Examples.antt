-- ===== src/Protocol/Examples.antt =====
-- A serialisation that meets what the client relies on, and runs with it.
use mathlib.Core.List.{append-nil, append_assoc}
use easygametools.Base.{
  ℕ, ◌≡◌, refl, ap, sym, ◌∙◌, Option, none, some, [], ◌∷◌, ◌++◌, arith, length, take, drop, ◌==◌,
  if◌then◌else◌,
}
use easygametools.Base.Int.{ℤ, pos, negsuc}
use easygametools.Base.Text.{Bytes}
use easygametools.Base.Outcome.{ok}
use easygametools.Protocol.{
  MessageId, challenge, challenge_response, challenge_accepted, new_host, user, ProtoUser,
  ProtocolMessage, proto_challenge_message,
}
use easygametools.Protocol.Packets.{Wire, create_message, decode_message, decode-create_message}

-- A printer and a parser that reads what was printed, whatever follows.
pub record Codec (A : Type 0) : Type 0 where
  pub print : A → Bytes
  pub read : Bytes → Option (A × Bytes)
  pub read-print : (a : A) (rest : Bytes) → read (print a ++ rest) ≡ some (a, rest)

abbrev pub read_int : Bytes → Option (ℤ × Bytes)
read_int (tag ∷ n ∷ rest) = some (if tag == 0 then pos n else negsuc n, rest)
read_int _ = none

abbrev pub print_int : ℤ → Bytes
print_int (pos n) = 0 ∷ n ∷ []
print_int (negsuc n) = 1 ∷ n ∷ []

pub read-print_int : (a : ℤ) (rest : Bytes) → read_int (print_int a ++ rest) ≡ some (a, rest)
read-print_int (pos n) rest = refl
read-print_int (negsuc n) rest = refl

abbrev pub int_codec : Codec ℤ
int_codec = record { print = print_int; read = read_int; read-print = read-print_int }

abbrev pub read_text : Bytes → Option (Bytes × Bytes)
read_text [] = none
read_text (n ∷ rest) = some (take n rest, drop n rest)

take-length : (s rest : Bytes) → take (length s) (s ++ rest) ≡ s
take-length [] rest = refl
take-length (c ∷ s) rest = ap (◌∷◌ c) (take-length s rest)

drop-length : (s rest : Bytes) → drop (length s) (s ++ rest) ≡ rest
drop-length [] rest = refl
drop-length (c ∷ s) rest = drop-length s rest

pub read-print_text : (s rest : Bytes) → read_text ((length s ∷ s) ++ rest) ≡ some (s, rest)
read-print_text s rest = rw (take-length s rest, drop-length s rest)

abbrev pub text_codec : Codec Bytes
text_codec = record { print = λ s. length s ∷ s; read = read_text; read-print = read-print_text }

module _ {A B : Type 0} (c : Codec A) (d : Codec B) where
  abbrev pub print_pair : A × B → Bytes
  print_pair (a, b) = c.print a ++ d.print b

  abbrev pub join_pair : A → Option (B × Bytes) → Option ((A × B) × Bytes)
  join_pair a none = none
  join_pair a (some (b, rest)) = some ((a, b), rest)

  abbrev pub read_second : Option (A × Bytes) → Option ((A × B) × Bytes)
  read_second none = none
  read_second (some (a, rest)) = join_pair a (d.read rest)

  pub read-print_pair :
      (p : A × B) (rest : Bytes) → read_second (c.read (print_pair p ++ rest)) ≡ some (p, rest)
  read-print_pair (a, b) rest = rw (
    append_assoc (c.print a) (d.print b) rest,
    c.read-print a (d.print b ++ rest),
    d.read-print b rest,
  )

  abbrev pub pair_codec : Codec (A × B)
  pair_codec = record {
    print = print_pair;
    read = λ s. read_second (c.read s);
    read-print = read-print_pair;
  }

module _ {A : Type 0} (c : Codec A) where
  abbrev pub print_option : Option A → Bytes
  print_option none = 0 ∷ []
  print_option (some a) = 1 ∷ c.print a

  abbrev pub some_read : Option (A × Bytes) → Option (Option A × Bytes)
  some_read none = none
  some_read (some (a, rest)) = some (some a, rest)

  abbrev pub read_option : Bytes → Option (Option A × Bytes)
  read_option [] = none
  read_option (tag ∷ rest) = if tag == 0 then some (none, rest) else some_read (c.read rest)

  pub read-print_option :
      (o : Option A) (rest : Bytes) → read_option (print_option o ++ rest) ≡ some (o, rest)
  read-print_option none rest = refl
  read-print_option (some a) rest = rw (c.read-print a rest)

  abbrev pub option_codec : Codec (Option A)
  option_codec = record { print = print_option; read = read_option; read-print = read-print_option }

abbrev pub id_number : MessageId → ℤ
id_number challenge = pos 1
id_number challenge_response = pos 2
id_number challenge_accepted = pos 3
id_number new_host = pos 4
id_number user = pos 5

abbrev pub id_of : ℤ → MessageId
id_of (negsuc n) = user
id_of (pos n) =
    if n == 1
    then challenge
    else if n == 2
    then challenge_response
    else if n == 3
    then challenge_accepted
    else if n == 4
    then new_host
    else user

id_of-id_number : (i : MessageId) → id_of (id_number i) ≡ i
id_of-id_number i = ground arith

-- The fields of a message in a row.
abbrev pub Fields : Type 0
Fields =
    ℤ × (Option (ℤ × Bytes) × (Option ℤ × (Option (ℤ × Bytes) × (Option (ℤ × Bytes) × Option ℤ))))

abbrev pub user_codec : Codec (Option (ℤ × Bytes))
user_codec = option_codec (pair_codec int_codec text_codec)

abbrev pub fields_codec : Codec Fields
fields_codec = pair_codec int_codec (
    pair_codec user_codec (
      pair_codec (option_codec int_codec)
        (pair_codec user_codec (pair_codec user_codec (option_codec int_codec)))))

abbrev pub user_fields : Option ProtoUser → Option (ℤ × Bytes)
user_fields none = none
user_fields (some u) = some (u.user_id, u.username)

abbrev pub user_from : Option (ℤ × Bytes) → Option ProtoUser
user_from none = none
user_from (some (i, name)) = some (record { user_id = i; username = name })

user_from-fields : (o : Option ProtoUser) → user_from (user_fields o) ≡ o
user_from-fields none = refl
user_from-fields (some u) = refl

abbrev pub fields_of : ProtocolMessage → Fields
fields_of m = (
  id_number m.message_id,
  (
    user_fields m.user_extension,
    (
      m.challenge_extension,
      (user_fields m.response_extension, (user_fields m.accepted_extension, m.new_host_extension)),
    ),
  ),
)

abbrev pub message_from : Option (Fields × Bytes) → Option ProtocolMessage
message_from none = none
message_from (some ((i, (u, (c, (r, (a, n))))), rest)) = some (record {
  message_id = id_of i;
  user_extension = user_from u;
  challenge_extension = c;
  response_extension = user_from r;
  accepted_extension = user_from a;
  new_host_extension = n;
})

message_from-fields : (m : ProtocolMessage) → message_from (some (fields_of m, [])) ≡ some m
message_from-fields m =
    rw
      (
        id_of-id_number m.message_id,
        user_from-fields m.user_extension,
        user_from-fields m.response_extension,
        user_from-fields m.accepted_extension,
      )
      refl

pub parse-serialize :
    (m : ProtocolMessage)
    → message_from (fields_codec.read (fields_codec.print (fields_of m))) ≡ some m
parse-serialize m =
    ap (λ (s : Bytes). message_from (fields_codec.read s))
      (sym (append-nil (fields_codec.print (fields_of m))))
    ∙ ap message_from (fields_codec.read-print (fields_of m) [])
    ∙ message_from-fields m

-- The wire format with a given first byte.
abbrev pub wire : ℕ → Wire
wire first = record {
  serialize = λ m. fields_codec.print (fields_of m);
  parse = λ s. message_from (fields_codec.read s);
  user_packet = first;
  parse-serialize = parse-serialize;
}

decode-create_message_example :
    decode_message (wire 100) (create_message (wire 100) (proto_challenge_message (pos 42)))
    ≡ ok (proto_challenge_message (pos 42))
decode-create_message_example =
    decode-create_message (wire 100) (proto_challenge_message (pos 42)) (omega arith) (omega arith)
