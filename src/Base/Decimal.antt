-- ===== src/Base/Decimal.antt =====
-- `%d`, `itoa`, `atoi` and `atol`.
use Prim.Native.Nat.{ℕ, zero, suc, ◌+◌, ◌-◌, ◌*◌, ◌/◌, ◌%◌, ◌^◌, ◌<◌, ◌≤◌}
use mathlib.Core.Path.{◌≡◌, sym, ◌∙◌, ap}
use mathlib.Core.Logic.{inl, inr}
use mathlib.Core.Bool.{true}
use mathlib.Core.List.{[], ◌∷◌}
use native.Mathlib.Omega.{arith}
use easygametools.Base.Lists.{All, length}
use easygametools.Base.Tests.{lt→ltb, ltb, ◌==◌, if◌then◌else◌, Bool-cases}
use easygametools.Base.Int.{ℤ, pos, negsuc}
use easygametools.Base.Text.{Bytes, is_digit, is_space}

-- The digits of `n`, in front of `out`.
digits : ℕ → ℕ → Bytes → Bytes
digits zero n out = out
digits (suc f) n out =
    let rest = digits f (n / 10) ((b'0' + n % 10) ∷ out) in
    if ltb n 10 then (b'0' + n) ∷ out else rest

-- `itoa(n, buf, 10)` of a number that is not negative.
unfoldable pub itoa : ℕ → Bytes
unfolding digits
itoa n = digits (suc n) n []

-- `sprintf("%d", n)`
unfoldable pub print_int : ℤ → Bytes
unfolding itoa
print_int (pos n) = itoa n
print_int (negsuc n) = b'-' ∷ itoa (suc n)

unfoldable pub scan_digits : ℕ → Bytes → ℕ
scan_digits n [] = n
scan_digits n (c ∷ s) =
    let rest = scan_digits (n * 10 + (c - b'0')) s in if is_digit c then rest else n

-- The value of a sign and a magnitude, held to the range of a 32-bit `long`.
abbrev pub clamp_long : ℕ → ℤ
clamp_long n = if ltb n (2 ^ 31) then pos n else pos (2 ^ 31 - 1)

abbrev pub clamp_neg_long : ℕ → ℤ
clamp_neg_long zero = pos 0
clamp_neg_long (suc n) = if ltb n (2 ^ 31) then negsuc n else negsuc (2 ^ 31 - 1)

-- After the white space: a sign, and the digits up to the first other byte.
unfoldable pub atol_signed : Bytes → ℤ
unfolding scan_digits
atol_signed [] = pos 0
atol_signed (c ∷ s) =
    if c == b'-'
    then clamp_neg_long (scan_digits 0 s)
    else if c == b'+'
    then clamp_long (scan_digits 0 s)
    else clamp_long (scan_digits 0 (c ∷ s))

-- `atol`, and `atoi`, whose types are both 32 bits wide here.
unfoldable pub atol : Bytes → ℤ
unfolding atol_signed
atol [] = pos 0
atol (c ∷ s) = let rest = atol s in if is_space c then rest else atol_signed (c ∷ s)

scan_digits-digits :
    (f n : ℕ) (out : Bytes) → n < f → scan_digits 0 (digits f n out) ≡ scan_digits n out
unfolding scan_digits digits
scan_digits-digits zero n out h = elim h [ ]
scan_digits-digits (suc f) n out h =
    ground (arith, scan_digits-digits f (n / 10) ((b'0' + n % 10) ∷ out))

read_digits : (n : ℕ) → scan_digits 0 (digits (suc n) n []) ≡ n
unfolding scan_digits
read_digits n = scan_digits-digits (suc n) n [] (omega arith)

digits-cons :
    (f n : ℕ) (out : Bytes)
    → n < f
    → (c : ℕ) × (s : Bytes) × (digits f n out ≡ c ∷ s) × (48 ≤ c) × (c ≤ 57)
unfolding digits
digits-cons zero n out h = elim h [ ]
digits-cons (suc f) n out h = elim (Bool-cases (ltb n 10)) [
  | inl small ↦ (b'0' + n, out, rw small, ground arith, ground arith)
  | inr more ↦ rw more (digits-cons f (n / 10) ((b'0' + n % 10) ∷ out) (ground arith))
]

atol_digit :
    (c : ℕ) (s : Bytes) → 48 ≤ c → c ≤ 57 → atol (c ∷ s) ≡ clamp_long (scan_digits 0 (c ∷ s))
unfolding atol
atol_digit c s h k = ground arith

-- A printed number reads back, if it fits a 32-bit `long`.
pub atol-itoa : (n : ℕ) → n < 2 ^ 31 → atol (itoa n) ≡ pos n
unfolding itoa
atol-itoa n h =
    let (c, s, e, lo, hi) = digits-cons (suc n) n [] (omega arith) in
    let read : scan_digits 0 (c ∷ s) ≡ n = sym (ap (scan_digits 0) e) ∙ read_digits n in
    rw e (atol_digit c s lo hi ∙ rw read (ground arith))

-- Every byte of a printed number is a digit.
digits-All :
    (f n : ℕ) (out : Bytes)
    → n < f
    → All (λ c. is_digit c ≡ true) out
    → All (λ c. is_digit c ≡ true) (digits f n out)
unfolding digits
digits-All zero n out h all = elim h [ ]
digits-All (suc f) n out h all = elim (Bool-cases (ltb n 10)) [
  | inl small ↦ rw small (ground arith, all)
  | inr more ↦
      rw more (digits-All f (n / 10) ((b'0' + n % 10) ∷ out) (ground arith) (ground arith, all))
]

pub itoa-All : (n : ℕ) → All (λ c. is_digit c ≡ true) (itoa n)
unfolding itoa
itoa-All n = digits-All (suc n) n [] (omega arith) tt

-- The power of ten that bounds the numbers of so many digits.
abbrev pub pow10 : ℕ → ℕ
pow10 zero = 1
pow10 (suc k) = 10 * pow10 k

digits-length :
    (f n k : ℕ) (out : Bytes)
    → n < f
    → n < pow10 (suc k)
    → length (digits f n out) ≤ suc k + length out
unfolding digits
digits-length zero n k out h small = elim h [ ]
digits-length (suc f) n zero out h small = rw (lt→ltb n 10 (omega (arith, small))) (omega arith)
digits-length (suc f) n (suc k) out h small = elim (Bool-cases (ltb n 10)) [
  | inl one ↦ rw one (omega arith)
  | inr more ↦ rw more (
      omega (
        arith,
        digits-length f (n / 10) k ((b'0' + n % 10) ∷ out) (ground arith) (omega (arith, small)),
      ))
]

-- A number below 10 ^ k has k digits at most.
pub itoa-length : (n k : ℕ) → n < pow10 (suc k) → length (itoa n) ≤ suc k
unfolding itoa
itoa-length n k small = omega (arith, digits-length (suc n) n k [] (omega arith) small)
