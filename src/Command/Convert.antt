-- ===== src/Command/Convert.antt =====
-- `get_value` of src/command.cpp: the value of a column from the bytes that `ct_fetch` has written.
-- The machine is little-endian.
pub mod Decimal
pub mod Integers
pub mod Known
use module_sybase.Base.{
  ℕ, zero, suc, ◌+◌, ◌-◌, ◌*◌, ◌^◌, ℤ, pos, negsuc, sub_ℕ, Bytes, Option, none, some, List, [], ◌∷◌,
  ◌++◌, Bool, true, false, not, ◌&&◌, ◌||◌, if◌then◌else◌, ◌==◌, ltb, leb, length, take, drop, text,
  format_int, trim_trailing, eq_ℤ,
}
use module_sybase.Build.{Build}
use module_sybase.Ct.{
  CtLib, CsType, char_type, varchar_type, longchar_type, text_type, unichar_type, decimal_type,
  numeric_type, float_type, real_type, money_type, money4_type, tinyint_type, smallint_type,
  int_type, bigint_type, bit_type, binary_type, varbinary_type, longbinary_type, image_type,
  datetime_type, datetime4_type, bigdatetime_type, bigtime_type, date_type, other_type, Format,
  fmt_padblank, fmt_nullterm, fmt_unused, fmt_other, Datafmt, Cell,
}
use module_sybase.Conversions.{
  CsDatetime, CsDatetime4, time_to_date_time, datetime_to_date_time, datetime4_to_date_time,
  bigdatetime_to_date_time, bigtime_to_date_time, date_to_date_time,
}
use module_sybase.Effect.{
  Connection, State, Outcome, ok, thrown, fault, M, ◌>>=◌, ◌>>◌, pure, raise, gets,
}
use module_sybase.Number.{NumericSupport, num_string, num_optimal, num_numeric, get_number}
use module_sybase.Value.{Value, nothing, null, int, bool, float, number, string, binary, date}

-- `is_number`
unfoldable pub is_number : Datafmt → Bool
is_number d = elim d.origin_datatype [ decimal_type ↦ true | numeric_type ↦ true | _ ↦ false ]

abbrev pub is_padblank : Format → Bool
is_padblank fmt_padblank = true
is_padblank _ = false

abbrev pub is_text : CsType → Bool
is_text text_type = true
is_text _ = false

abbrev pub is_longchar : CsType → Bool
is_longchar longchar_type = true
is_longchar _ = false

abbrev pub is_string : NumericSupport → Bool
is_string num_string = true
is_string _ = false

-- `need_trim`
unfoldable pub need_trim : Build → Datafmt → Bool
need_trim build d =
    is_padblank d.format
    || eq_ℤ d.usertype (pos 34)
    || is_text d.datatype
    || (build.sybase && is_longchar d.datatype)

-- The number in `n` bytes of a buffer; a buffer has at least 8 bytes.
unfoldable pub read_le : ℕ → Bytes → ℕ
read_le zero b = 0
read_le (suc n) [] = 0
read_le (suc n) (x ∷ b) = x + 256 * read_le n b

-- The signed number of `w` bits that has this bit pattern.
unfoldable pub signed : ℕ → ℕ → ℤ
signed w n = if ltb n (2 ^ (w - 1)) then pos n else sub_ℕ n (2 ^ w)

-- `getTZ`
unfoldable pub get_tz : Build → Connection → ℕ
get_tz build conn = elim conn.server_tz [ none ↦ build.current_tz | some z ↦ z ]

-- A value, or a type that `get_value` has no case for, or a read out of the buffer's bounds.
pub data Decoded : Type 0 where
  decoded : Value → Decoded
  unknown_type out_of_bounds : Decoded

-- The text of a column, trimmed or not: a string, or what `getNumber` makes of it.
unfoldable pub text_value : Connection → Datafmt → Bytes → Value
text_value conn d t =
    if is_number d && not (is_string conn.numeric_support)
    then get_number conn.numeric_support t
    else string t conn.enc

abbrev pub is_space : ℕ → Bool
is_space c = c == b' '

-- The case of CS_LONGCHAR_TYPE, CS_VARCHAR_TYPE and CS_TEXT_TYPE: the length counts a terminator.
unfoldable pub longchar_value : Build → Connection → Datafmt → Cell → Decoded
unfolding text_value
longchar_value build conn d c =
    if ltb 0 c.value_len && leb (c.value_len - 1) (length c.value)
    then (let t = take (c.value_len - 1) c.value in
        decoded (
          text_value conn d
            (if build.sybase && need_trim build d then trim_trailing is_space t else t)))
    else out_of_bounds

-- The case of CS_CHAR_TYPE.
unfoldable pub char_value : Build → Connection → Datafmt → Cell → Decoded
unfolding text_value
char_value build conn d c =
    if leb c.value_len (length c.value)
    then (let t = take c.value_len c.value in
        decoded (text_value conn d (if need_trim build d then trim_trailing is_space t else t)))
    else out_of_bounds

unfoldable pub binary_value : Cell → Decoded
binary_value c =
    if leb c.value_len (length c.value)
    then decoded (binary (take c.value_len c.value))
    else out_of_bounds

abbrev datetime_in : Bytes → CsDatetime
datetime_in b = record {
  dtdays = signed 32 (read_le 4 b);
  dttime = signed 32 (read_le 4 (drop 4 b));
}

abbrev datetime4_in : Bytes → CsDatetime4
datetime4_in b = record { days = read_le 2 b; minutes = read_le 2 (drop 2 b) }

-- A case that is compiled if the library defines the type.
abbrev compiled : Bool → Value → Decoded
compiled b v = if b then decoded v else unknown_type

-- The switch over the type.
unfoldable pub convert : Build → Connection → Datafmt → Cell → CsType → Decoded
unfolding longchar_value char_value binary_value
convert build conn d c longchar_type = longchar_value build conn d c
convert build conn d c varchar_type = longchar_value build conn d c
convert build conn d c text_type = longchar_value build conn d c
convert build conn d c char_type = char_value build conn d c
convert build conn d c varbinary_type = binary_value c
convert build conn d c binary_type = binary_value c
convert build conn d c longbinary_type = binary_value c
convert build conn d c image_type = binary_value c
convert build conn d c tinyint_type = decoded (int (pos (read_le 1 c.value)))
convert build conn d c smallint_type = decoded (int (signed 16 (read_le 2 c.value)))
convert build conn d c int_type = decoded (int (signed 32 (read_le 4 c.value)))
convert build conn d c bigint_type = compiled build.has_bigint (int (signed 64 (read_le 8 c.value)))
convert build conn d c real_type = decoded (float (build.real_to_float (read_le 4 c.value)))
convert build conn d c float_type = decoded (float (read_le 8 c.value))
convert build conn d c bit_type = decoded (bool (not (read_le 1 c.value == 0)))
convert build conn d c datetime_type = decoded (
    date (
      if eq_ℤ d.usertype (pos 38)
      then time_to_date_time (datetime_in c.value) (some (get_tz build conn))
      else datetime_to_date_time (datetime_in c.value) (some (get_tz build conn))))
convert build conn d c datetime4_type =
    decoded (date (datetime4_to_date_time (datetime4_in c.value)))
convert build conn d c bigdatetime_type =
    compiled build.has_bigdatetime
      (date (bigdatetime_to_date_time (read_le 8 c.value) (some (get_tz build conn))))
convert build conn d c bigtime_type =
    compiled build.has_bigtime
      (date (bigtime_to_date_time (read_le 8 c.value) (some (get_tz build conn))))
convert build conn d c date_type =
    compiled build.has_date
      (date (date_to_date_time (read_le 4 c.value) (some (get_tz build conn))))
convert build conn d c _ = unknown_type

-- The value that a buffer holds: NULL, or as the type says.
unfoldable pub value_of : Build → Connection → Datafmt → Cell → Decoded
value_of build conn d c =
    if eq_ℤ c.indicator (negsuc 0) then decoded null else convert build conn d c d.datatype

module _ (build : Build) (ct : CtLib) where
  open ct use {World}

  abbrev pub deliver : CsType → Decoded → M World Value
  deliver t (decoded v) = pure v
  deliver t unknown_type = do
    raise (text "TDS-EXEC-EXCEPTION") (text "Unknown data type " ++ format_int (ct.type_number t))
    pure nothing
  deliver t out_of_bounds = λ s. (fault, s)

  -- `get_value`
  unfoldable pub get_value : Datafmt → Cell → M World Value
  unfolding value_of
  get_value d c = do conn ← gets (λ s. s.conn); deliver d.datatype (value_of build conn d c)
