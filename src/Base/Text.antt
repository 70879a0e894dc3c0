-- ===== src/Base/Text.antt =====
-- C strings as lists of bytes, without the closing NUL, and the functions of the C library that the
-- client compares them with.
use Prim.Native.Char.{code}
use Prim.Native.String.{String}
use Prim.Native.Nat.{ℕ, zero, suc, ◌+◌}
use mathlib.Core.Path.{◌≡◌, refl}
use mathlib.Core.Bool.{Bool, true, false, ◌&&◌, ◌||◌}
use mathlib.Core.Logic.{◌↔◌}
use mathlib.Core.List.{List, [], ◌∷◌}
use native.Mathlib.Omega.{arith}
use easygametools.Base.Tests.{leb, ◌==◌, if◌then◌else◌}

abbrev pub Bytes : Type 0
Bytes = List ℕ

-- The bytes of an ASCII literal.
abbrev pub codes : String → Bytes
codes String.[] = []
codes (String.◌∷◌ c s) = code c ∷ codes s

-- `strncmp(a, b, n) == 0`
abbrev pub strncmp_eq : Bytes → Bytes → ℕ → Bool
strncmp_eq a b zero = true
strncmp_eq [] [] (suc n) = true
strncmp_eq (x ∷ a) (y ∷ b) (suc n) = x == y && strncmp_eq a b n
strncmp_eq _ _ (suc n) = false

-- `strcmp(a, b) == 0`
abbrev pub strcmp_eq : Bytes → Bytes → Bool
strcmp_eq [] [] = true
strcmp_eq (x ∷ a) (y ∷ b) = x == y && strcmp_eq a b
strcmp_eq _ _ = false

pub strcmp_eq_iff : (a b : Bytes) → (strcmp_eq a b ≡ true) ↔ (a ≡ b)
strcmp_eq_iff [] [] = ground arith
strcmp_eq_iff [] (y ∷ b) = ground arith
strcmp_eq_iff (x ∷ a) [] = ground arith
strcmp_eq_iff (x ∷ a) (y ∷ b) = ground (arith, strcmp_eq_iff a b)

pub strcmp_eq_refl : (a : Bytes) → strcmp_eq a a ≡ true
strcmp_eq_refl a = (strcmp_eq_iff a a).1 refl

-- `isdigit`
abbrev pub is_digit : ℕ → Bool
is_digit c = leb b'0' c && leb c b'9'

-- `tolower`, in the C locale
abbrev pub to_lower : ℕ → ℕ
to_lower c = if leb b'A' c && leb c b'Z' then c + 32 else c

-- `isspace`
abbrev pub is_space : ℕ → Bool
is_space c = c == 32 || (leb 9 c && leb c 13)
