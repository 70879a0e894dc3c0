-- ===== src/Web/Body.antt =====
-- The loop of `WebForm::sendRequest` that reads the response: game_client/game_client/Web.cpp.
use mathlib.Core.List.{append-nil, append_assoc}
use easygametools.Base.{
  ℕ, ◌+◌, ◌%◌, ◌^◌, ◌-◌, ◌<◌, ◌≤◌, ◌≡◌, refl, Option, none, some, List, [], ◌∷◌, ◌++◌, take,
  take_all, arith, length, length-append, ltb, leb, ◌==◌, if◌then◌else◌, Bool-cases, Option-cases,
  inl, inr, All,
}
use easygametools.Base.Text.{Bytes}
use easygametools.Base.Outcome.{Result, ok, err, fatal}

-- A round in which `InternetQueryDataAvailable` answers TRUE: the bytes that it announces, and what
-- `InternetReadFile` gives when it is asked for so many bytes, `none` where it fails.
pub record Chunk : Type 0 where
  pub available : ℕ
  pub read : ℕ → Option Bytes

-- The sum of the announced bytes and those in the buffer does not wrap around, a condition on the server's
-- answer; and `InternetReadFile` stores no more bytes than it is asked for, as is documented.
pub record IsBounded (c : Chunk) : Type 0 where
  pub unwrapped : c.available + 8191 < 2 ^ 32
  pub bounded : (n : ℕ) (b : Bytes) → c.read n ≡ some b → length b ≤ n

-- What is asked for, behind `size` bytes of `char tempBuffer[8192]`; a `DWORD` wraps around.
unfoldable pub to_read : ℕ → ℕ → ℕ
to_read size available =
    if ltb 8191 ((size + available) % 2 ^ 32) then 8192 - size - 1 else available

-- The bytes that the loop leaves in the buffer.
unfoldable pub read_body : Bytes → List Chunk → Result Bytes
read_body buffer [] = ok buffer
read_body buffer (c ∷ cs) = elim (c.read (to_read (length buffer) c.available)) [
  | none ↦ err (fatal "WebForm failed3")
  | some b ↦
      let rest = read_body (buffer ++ b) cs in
      if length b == 0
      then ok (buffer ++ b)
      else if leb 8191 (length (buffer ++ b))
      then ok (buffer ++ b)
      else rest
]

-- The next read stays in the buffer, the closing NUL included.
read-le :
    (buffer : Bytes) (c : Chunk) (b : Bytes)
    → IsBounded c
    → length buffer ≤ 8191
    → c.read (to_read (length buffer) c.available) ≡ some b
    → length (buffer ++ b) ≤ 8191
unfolding to_read
read-le buffer c b bounded fits e =
    ground
      (arith, length-append buffer b, bounded.bounded (to_read (length buffer) c.available) b e)

-- If each announcement lies at least 8192 below 2^32, so that the DWORD sum of the bytes in the buffer and
-- those announced does not wrap around, and InternetReadFile stores no more than it is asked for, then
-- however the server cuts the response no read leaves the buffer of 8192 bytes: a body that is returned
-- has 8191 bytes at most. Of a greater announcement nothing is said.
pub read_body-le :
    (buffer : Bytes) (chunks : List Chunk) (body : Bytes)
    → All IsBounded chunks
    → length buffer ≤ 8191
    → read_body buffer chunks ≡ ok body
    → length body ≤ 8191
unfolding read_body
read_body-le buffer [] body bounded fits e = ground arith
read_body-le buffer (c ∷ cs) body bounded fits e =
    elim (Option-cases (c.read (to_read (length buffer) c.available))) [
      | inl failed ↦ ground arith
      | inr (b, done) ↦ ground (
        arith,
        read-le buffer c b bounded.0 fits done,
        read_body-le (buffer ++ b) cs body bounded.1,
      )
    ]

-- A server that announces each piece whole.
abbrev piece : Bytes → Chunk
piece d = record { available = length d; read = λ n. some (take n d) }

abbrev pub pieces : List Bytes → List Chunk
pieces [] = []
pieces (d ∷ ds) = piece d ∷ pieces ds

abbrev pub joined : List Bytes → Bytes
joined [] = []
joined (d ∷ ds) = d ++ joined ds

joined_nil :
    (ds : List Bytes) → All (λ d. 1 ≤ length d) ds → length (joined ds) ≡ 0 → joined ds ≡ []
joined_nil [] some_bytes empty = refl
joined_nil (d ∷ ds) some_bytes empty =
    absurd (omega (arith, length-append d (joined ds), some_bytes.0))

read_piece :
    (buffer d : Bytes)
    → length buffer + length d ≤ 8191
    → take (to_read (length buffer) (length d)) d ≡ d
unfolding to_read
read_piece buffer d fits = elim (Bool-cases (ltb 8191 ((length buffer + length d) % 2 ^ 32))) [
  | inl over ↦ absurd (ground arith)
  | inr room ↦ rw room (take_all (length d) d (omega arith))
]

read_body-pieces_lem :
    (buffer : Bytes) (ds : List Bytes)
    → All (λ d. 1 ≤ length d) ds
    → length buffer + length (joined ds) ≤ 8191
    → read_body buffer (pieces ds) ≡ ok (buffer ++ joined ds)
unfolding read_body
read_body-pieces_lem buffer [] some_bytes fits = rw append-nil
read_body-pieces_lem buffer (d ∷ ds) some_bytes fits =
    let whole = read_piece buffer d (omega (arith, length-append d (joined ds))) in
    rw (whole, read_body)
      (ground (
        arith,
        length-append d (joined ds),
        length-append buffer d,
        some_bytes.0,
        append_assoc buffer d (joined ds),
        append-nil (buffer ++ d),
        joined_nil ds some_bytes.1,
        read_body-pieces_lem (buffer ++ d) ds some_bytes.1,
      ))

-- A response of 8191 bytes at most, announced piece by piece, is read whole.
pub read_body-pieces :
    (ds : List Bytes)
    → All (λ d. 1 ≤ length d) ds
    → length (joined ds) ≤ 8191
    → read_body [] (pieces ds) ≡ ok (joined ds)
read_body-pieces ds some_bytes fits = read_body-pieces_lem [] ds some_bytes (omega arith)
