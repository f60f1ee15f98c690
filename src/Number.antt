-- ===== src/Number.antt =====
-- `command::getNumber` of src/command.cpp: the value of a DECIMAL or NUMERIC column, which arrives
-- as text.
pub mod Digits
pub mod Trim
pub mod Integers
use module_sybase.Base.{
  ℕ, suc, ◌+◌, ◌-◌, ◌*◌, ◌^◌, ◌∷◌, Bool, true, false, ◌&&◌, ◌||◌, not, List, [], ◌==◌,
  if◌then◌else◌, ltb, leb, length, any, ℤ, pos, negsuc, sub_ℕ, Bytes, text, is_digit, trim_trailing,
}
use module_sybase.Value.{Value, int, number}

-- `numeric_support` of the connection: `OPT_NUM_OPTIMAL`, `OPT_NUM_STRING`, `OPT_NUM_NUMERIC`.
pub data NumericSupport : Type 0 where
  num_optimal num_string num_numeric : NumericSupport

-- `strchr(str, '.')`
abbrev pub has_point : Bytes → Bool
has_point = any (λ c. c == b'.')

-- The text without its last byte, if that is a point.
pub drop_point : Bytes → Bytes
drop_point [] = []
drop_point (c ∷ []) = if c == b'.' then [] else c ∷ []
drop_point (c ∷ d ∷ s) = c ∷ drop_point (d ∷ s)

unfoldable pub trim_zeros : Bytes → Bytes
trim_zeros s = if has_point s then drop_point (trim_trailing (λ c. c == b'0') s) else s

-- `strcmp(a, b) <= 0`
unfoldable pub le_text : Bytes → Bytes → Bool
le_text [] b = true
le_text (x ∷ a) [] = false
le_text (x ∷ a) (y ∷ b) = ltb x y || (x == y && le_text a b)

-- The number that a run of digits at the start of a text stands for, behind the value so far.
unfoldable pub read_digits : ℕ → Bytes → ℕ
read_digits n [] = n
read_digits n (c ∷ s) = if is_digit c then read_digits (n * 10 + (c - b'0')) s else n

-- `strtoll(str, 0, 10)` on a text that starts with a digit or a minus sign: what is out of range
-- becomes the nearest number in range.
abbrev clamp_pos : ℕ → ℤ
clamp_pos n = if ltb n (2 ^ 63) then pos n else pos (2 ^ 63 - 1)

abbrev clamp_neg : ℕ → ℤ
clamp_neg n = if leb n (2 ^ 63) then sub_ℕ 0 n else sub_ℕ 0 (2 ^ 63)

unfoldable pub strtoll : Bytes → ℤ
strtoll [] = pos 0
strtoll (c ∷ s) =
    if c == b'-' then clamp_neg (read_digits 0 s) else clamp_pos (read_digits 0 (c ∷ s))

unfoldable pub has_sign : Bytes → Bool
has_sign [] = false
has_sign (c ∷ s) = c == b'-'

abbrev pub max_int64 : Bytes
max_int64 = text "9223372036854775807"

abbrev pub min_int64 : Bytes
min_int64 = text "-9223372036854775808"

-- The test for a text that is returned as an integer; `len` leaves a sign out.
unfoldable pub is_int64 : Bytes → Bool
is_int64 s =
    let sign = has_sign s in
    let len = if sign then length s - 1 else length s in
    not (has_point s)
    && (ltb len 19
        || (len == 19 && ((not sign && le_text s max_int64) || (sign && le_text min_int64 s))))

abbrev is_optimal : NumericSupport → Bool
is_optimal num_optimal = true
is_optimal _ = false

-- `getNumber(str, len)`. The flag `has_decimal` at the test of the option is whether a point is
-- left: the one that is dropped is the only one.
unfoldable pub get_number : NumericSupport → Bytes → Value
unfolding trim_zeros is_int64
get_number nf str =
    let s = trim_zeros str in if is_optimal nf && is_int64 s then int (strtoll s) else number s
