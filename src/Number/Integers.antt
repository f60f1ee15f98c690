-- ===== src/Number/Integers.antt =====
-- Which texts of digits are returned as integers, and as which.
use module_sybase.Base.{
  ℕ, ◌-◌, ◌^◌, ◌<◌, ◌≡◌, refl, ◌∷◌, true, false, ◌&&◌, [], if◌then◌else◌, ltb, leb, length, Bytes,
  is_digit, arith, ap, ◌∙◌, all, sym, pos, negsuc, text,
}
use module_sybase.Value.{int, number}
use module_sybase.Number.{
  read_digits, trim_zeros, has_point, is_int64, get_number, num_optimal, strtoll, le_text,
  max_int64, min_int64, has_sign,
}
use module_sybase.Number.Digits.{IsDigits, read_digits-bound, le_text-read_digits}

has_point-IsDigits : (s : Bytes) → IsDigits s → has_point s ≡ false
has_point-IsDigits [] h = refl
has_point-IsDigits (c ∷ s) h = ground (arith, has_point-IsDigits s)

has_sign-IsDigits : (s : Bytes) → IsDigits s → has_sign s ≡ false
unfolding has_sign
has_sign-IsDigits [] h = refl
has_sign-IsDigits (c ∷ s) h = ground (arith, h.0)

all-IsDigits : (s : Bytes) → all is_digit s ≡ true → IsDigits s
all-IsDigits [] h = tt
all-IsDigits (c ∷ s) h = (ground arith, all-IsDigits s (ground arith))

max_int64-IsDigits : IsDigits max_int64
unfolding text
max_int64-IsDigits = all-IsDigits max_int64 refl

max_int64_is : (length max_int64 ≡ 19) × (read_digits 0 max_int64 ≡ 2 ^ 63 - 1)
unfolding text read_digits
max_int64_is = (refl, refl)

-- The digits of the smallest 64-bit integer.
abbrev min_digits : Bytes
min_digits = text "9223372036854775808"

min_digits-IsDigits : IsDigits min_digits
unfolding text
min_digits-IsDigits = all-IsDigits min_digits refl

min_digits_is :
    (length min_digits ≡ 19) × (read_digits 0 min_digits ≡ 2 ^ 63) × (min_int64 ≡ b'-' ∷ min_digits)
unfolding text read_digits
min_digits_is = (refl, refl, refl)

le_text-max_int64 :
    (s : Bytes) → IsDigits s → length s ≡ 19 → le_text s max_int64 ≡ ltb (read_digits 0 s) (2 ^ 63)
le_text-max_int64 s h e =
    le_text-read_digits 0 s max_int64 h max_int64-IsDigits (e ∙ sym max_int64_is.0)
    ∙ ground (arith, max_int64_is.1)

le_text-min_int64 :
    (s : Bytes)
    → IsDigits s
    → length s ≡ 19
    → le_text min_int64 (b'-' ∷ s) ≡ leb (2 ^ 63) (read_digits 0 s)
le_text-min_int64 s h e = rw min_digits_is.2 (
    same_head
    ∙ le_text-read_digits 0 min_digits s min_digits-IsDigits h (min_digits_is.0 ∙ sym e)
    ∙ ap (λ (n : ℕ). leb n (read_digits 0 s)) min_digits_is.1)
  where
    same_head : le_text (b'-' ∷ min_digits) (b'-' ∷ s) ≡ le_text min_digits s
    same_head = unfold le_text in refl

trim_zeros-no_point : (s : Bytes) → has_point s ≡ false → trim_zeros s ≡ s
unfolding trim_zeros
trim_zeros-no_point s h = rw h

strtoll-IsDigits :
    (s : Bytes) → IsDigits s → read_digits 0 s < 2 ^ 63 → strtoll s ≡ pos (read_digits 0 s)
unfolding strtoll
strtoll-IsDigits [] h l = unfold read_digits in refl
strtoll-IsDigits (c ∷ s) h l = ground (arith, h.0)

is_int64-IsDigits :
    (s : Bytes) → IsDigits s → is_int64 s ≡ (ltb (length s) 20 && ltb (read_digits 0 s) (2 ^ 63))
unfolding is_int64
is_int64-IsDigits s h =
    rw (has_point-IsDigits s h, has_sign-IsDigits s h)
      (ground (arith, le_text-max_int64 s h, read_digits-bound 18 0 s h))

-- With the option for optimal numbers, a text of up to 19 digits whose number fits into 64 bits is
-- returned as that integer, and any other text of digits as an arbitrary-precision number.
pub get_number_digits :
    (s : Bytes)
    → IsDigits s
    → get_number num_optimal s ≡ (
        if ltb (length s) 20 && ltb (read_digits 0 s) (2 ^ 63)
        then int (pos (read_digits 0 s))
        else number s)
unfolding get_number
get_number_digits s h =
    rw (trim_zeros-no_point s (has_point-IsDigits s h), is_int64-IsDigits s h)
      (ground (arith, strtoll-IsDigits s h))

has_point_negative : (s : Bytes) → IsDigits s → has_point (b'-' ∷ s) ≡ false
has_point_negative s h = has_point-IsDigits s h

is_int64_negative :
    (s : Bytes) → IsDigits s → length s ≡ 19 → is_int64 (b'-' ∷ s) ≡ leb (2 ^ 63) (read_digits 0 s)
unfolding is_int64 has_sign
is_int64_negative s h e = ground (arith, has_point_negative s h, le_text-min_int64 s h e)

-- With the option for optimal numbers, a minus sign with 19 digits below 2 ^ 63 stays an
-- arbitrary-precision number, and with any other 19 digits becomes the least 64-bit integer.
pub get_number_negative :
    (s : Bytes)
    → IsDigits s
    → length s ≡ 19
    → get_number num_optimal (b'-' ∷ s)
      ≡ (if ltb (read_digits 0 s) (2 ^ 63) then number (b'-' ∷ s) else int (negsuc (2 ^ 63 - 1)))
unfolding get_number strtoll
get_number_negative s h e =
    rw (trim_zeros-no_point (b'-' ∷ s) (has_point_negative s h), is_int64_negative s h e)
      (ground arith)
