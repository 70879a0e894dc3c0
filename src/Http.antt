-- ===== src/Http.antt =====
-- The parts of a response, game_client/game_client/Http.h and Http.cpp.
pub mod Examples
use easygametools.Base.{
  ℕ, zero, suc, ◌<◌, ◌≤◌, ◌≡◌, refl, sym, ap, ◌∙◌, inl, inr, Bool, true, false, Option, none, some,
  List, [], ◌∷◌, ◌++◌, All, length, drop, if◌then◌else◌, Bool-cases, arith,
}
use easygametools.Base.Int.{ℤ, pos}
use easygametools.Base.Text.{Bytes, codes, strncmp_eq, is_digit}
use easygametools.Base.Decimal.{atol, itoa, itoa-All, itoa-length, pow10, atol-itoa}
use easygametools.Base.Outcome.{Result, ok, err, unterminated}

-- The loop over `codeBuf`, whose last byte is kept for the NUL.
unfoldable pub copy_code : ℕ → Bytes → Bytes
copy_code zero s = []
copy_code (suc n) [] = []
copy_code (suc n) (c ∷ s) = let rest = copy_code n s in if is_digit c then c ∷ rest else []

-- `Http::getStatus`
unfoldable pub get_status : Bytes → ℤ
unfolding copy_code
get_status response =
    if strncmp_eq (codes "HTTP/1.1 ") response 9
    then atol (copy_code 9 (drop 9 response))
    else pos 500

-- `strstr(response, needle) + strlen(needle)`
unfoldable pub after_first : Bytes → Bytes → Option Bytes
after_first needle [] = none
after_first needle (c ∷ s) =
    let rest = after_first needle s in
    if strncmp_eq needle (c ∷ s) (length needle) then some (drop (length needle) (c ∷ s)) else rest

abbrev pub newlines : List Bytes
newlines = (13 ∷ 10 ∷ 13 ∷ 10 ∷ []) ∷ (10 ∷ 10 ∷ []) ∷ (13 ∷ 13 ∷ []) ∷ []

-- The loop of `Http::getData`. Its bound is the size of the array in bytes, so that it goes on behind
-- the last entry.
unfoldable pub find_data : List Bytes → Bytes → Result Bytes
unfolding after_first
find_data [] response = err unterminated
find_data (needle ∷ needles) response = elim (after_first needle response) [
  | none ↦ find_data needles response
  | some s ↦ ok s
]

-- `Http::getData`
unfoldable pub get_data : Bytes → Result Bytes
unfolding find_data
get_data response = find_data newlines response

-- No digit comes first.
abbrev pub EndsNumber : Bytes → Type 0
EndsNumber [] = Unit
EndsNumber (c ∷ s) = is_digit c ≡ false

copy_code-digits :
    (n : ℕ) (ds rest : Bytes)
    → All (λ c. is_digit c ≡ true) ds
    → length ds ≤ n
    → EndsNumber rest
    → copy_code n (ds ++ rest) ≡ ds
unfolding copy_code
copy_code-digits zero [] rest all fit end = refl
copy_code-digits (suc n) [] [] all fit end = refl
copy_code-digits (suc n) [] (c ∷ s) all fit end = rw end refl
copy_code-digits zero (d ∷ ds) rest all fit end = absurd (omega arith)
copy_code-digits (suc n) (d ∷ ds) rest (here, all) fit end =
    rw here (ap (◌∷◌ d) (copy_code-digits n ds rest all (omega (arith, fit)) end))

-- The status of a response that starts with HTTP/1.1, a number of nine digits at most and then no digit
-- is that number.
pub get_status-itoa :
    (n : ℕ) (rest : Bytes)
    → n < pow10 9
    → EndsNumber rest
    → get_status (codes "HTTP/1.1 " ++ (itoa n ++ rest)) ≡ pos n
unfolding get_status
get_status-itoa n rest small end =
    ap atol (copy_code-digits 9 (itoa n) rest (itoa-All n) (itoa-length n 8 small) end)
    ∙ atol-itoa n (omega (arith, small))
