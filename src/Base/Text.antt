-- ===== src/Base/Text.antt =====
-- Texts as lists of bytes: literals, decimal numbers as `printf` writes them, and the trimming
-- and searching that the driver does.
use Prim.Native.Nat.{ℕ, zero, suc, ◌+◌, ◌/◌, ◌%◌}
use Prim.Native.Char.{code}
use Prim.Native.String.{String}
use mathlib.Core.Path.{◌≡◌, refl}
use mathlib.Core.Bool.{Bool, true, false, ◌&&◌, ◌||◌}
use mathlib.Core.List.{List, [], ◌∷◌}
use native.Mathlib.Omega.{arith}
use module_sybase.Base.Tests.{ltb, leb, ◌==◌, if◌then◌else◌}
use module_sybase.Base.Int.{ℤ, pos, negsuc}

abbrev pub Bytes : Type 0
Bytes = List ℕ

-- The bytes of an ASCII literal. It stays shut, so that long messages are atoms in proofs.
unfoldable pub text : String → Bytes
text String.[] = []
text (String.◌∷◌ c s) = code c ∷ text s

abbrev pub digit : ℕ → ℕ
digit d = b'0' + d

-- `%u`: the digits of a number, the last one first found. Fuel `n` is enough for the number `n`.
unfoldable pub digits : ℕ → ℕ → Bytes → Bytes
digits zero n out = digit (n % 10) ∷ out
digits (suc f) n out =
    let rest = digits f (n / 10) (digit (n % 10) ∷ out) in
    if ltb n 10 then digit (n % 10) ∷ out else rest

unfoldable pub decimal : ℕ → Bytes
unfolding digits
decimal n = digits n n []

-- `%d`.
unfoldable pub format_int : ℤ → Bytes
unfolding decimal
format_int (pos n) = decimal n
format_int (negsuc n) = b'-' ∷ decimal (suc n)

abbrev pub is_digit : ℕ → Bool
is_digit c = leb b'0' c && leb c b'9'

-- `isalnum` in the C locale.
abbrev pub is_alnum : ℕ → Bool
is_alnum c = is_digit c || (leb b'a' c && leb c b'z') || (leb b'A' c && leb c b'Z')

-- `tolower` in the C locale.
unfoldable pub to_lower : ℕ → ℕ
to_lower c = if leb b'A' c && leb c b'Z' then c + 32 else c

-- Equality of texts.
unfoldable pub eq_text : Bytes → Bytes → Bool
eq_text [] [] = true
eq_text [] (y ∷ ys) = false
eq_text (x ∷ xs) [] = false
eq_text (x ∷ xs) (y ∷ ys) = x == y && eq_text xs ys

pub eq_text_refl : (xs : Bytes) → eq_text xs xs ≡ true
unfolding eq_text
eq_text_refl [] = refl
eq_text_refl (x ∷ xs) = ground (arith, eq_text_refl xs)

pub eq_text→eq : (xs ys : Bytes) → eq_text xs ys ≡ true → xs ≡ ys
unfolding eq_text
eq_text→eq [] [] h = refl
eq_text→eq [] (y ∷ ys) h = ground arith
eq_text→eq (x ∷ xs) [] h = ground arith
eq_text→eq (x ∷ xs) (y ∷ ys) h = ground (arith, eq_text→eq xs ys)

-- `c ∷ rest`, where `rest` has been trimmed already.
abbrev pub trim_cons : (ℕ → Bool) → ℕ → Bytes → Bytes
trim_cons p c [] = if p c then [] else c ∷ []
trim_cons p c (d ∷ r) = c ∷ d ∷ r

-- A text without its trailing bytes that satisfy `p`.
unfoldable pub trim_trailing : (ℕ → Bool) → Bytes → Bytes
trim_trailing p [] = []
trim_trailing p (c ∷ s) = trim_cons p c (trim_trailing p s)
