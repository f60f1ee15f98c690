-- ===== src/Command/Arguments.antt =====
-- The arguments of a query, the parameters that `set_params` of src/command.cpp makes of NULL and of
-- integers, and a date as text.
use module_sybase.Base.{
  ℕ, zero, suc, ◌-◌, ℤ, pos, negsuc, ltb_ℤ, Bytes, Option, none, some, [], ◌∷◌, ◌++◌, true, false,
  not, ◌&&◌, ◌==◌, if◌then◌else◌, length, decimal,
}
use module_sybase.Build.{Build}
use module_sybase.Ct.{
  CsType, char_type, bigint_type, int_type, float_type, Format, fmt_nullterm, Param,
}
use module_sybase.Command.Convert.Integers.{write_le, pattern_of}
pub use module_sybase.Value.{
  Arg, arg_null, arg_string, arg_unconverted, arg_number, arg_date, arg_int, arg_bool, arg_float,
  arg_binary, arg_hash, arg_other,
}

-- `qore_tm`
pub record QoreTm : Type 0 where
  pub year : ℕ
  pub month : ℕ
  pub day : ℕ
  pub hour : ℕ
  pub minute : ℕ
  pub second : ℕ
  pub us : ℕ

-- `%0wd`
abbrev pub pad_with : ℕ → Bytes → Bytes
pad_with zero t = t
pad_with (suc n) t = b'0' ∷ pad_with n t

unfoldable pub padded : ℕ → ℕ → Bytes
padded w n = pad_with (w - length (decimal n)) (decimal n)

-- The text of a date in the server's time zone.
unfoldable pub date_text : QoreTm → Bytes
unfolding padded
date_text t =
    padded 4 t.year
    ++ b'-'
      ∷ (padded 2 t.month
          ++ b'-'
            ∷ (padded 2 t.day
                ++ b'T'
                  ∷ (padded 2 t.hour
                      ++ b':'
                        ∷ (padded 2 t.minute
                            ++ b':'
                              ∷ (padded 2 t.second
                                  ++ (if t.us == 0 then [] else b'.' ∷ padded 6 t.us))))))

-- A parameter of this type and format with these bytes.
abbrev pub param_of : Bytes → CsType → Option Format → Option ℕ → Bytes → Param
param_of name t f max bytes = record {
  name = name;
  datatype = some t;
  format = f;
  maxlength = max;
  value = some bytes;
  is_null = false;
}

abbrev pub text_param : Bytes → Format → ℕ → Bytes → Param
text_param name f max t = param_of name char_type (some f) (some max) t

-- NULL, for which FreeTDS wants a type.
abbrev pub null_param : Build → Bytes → Param
null_param build name = record {
  name = name;
  datatype = if build.freetds then some char_type else none;
  format = if build.freetds then some fmt_nullterm else none;
  maxlength = if build.freetds then some 1 else none;
  value = none;
  is_null = true;
}

-- The case NT_INT: a 64-bit integer, or where the library has none a 32-bit integer or a float.
unfoldable pub int_param : Build → Bytes → ℤ → Param
int_param build name n =
    if build.has_bigint
    then param_of name bigint_type none none (write_le 8 (pattern_of 64 n))
    else if not (ltb_ℤ (pos 2147483647) n) && not (ltb_ℤ n (negsuc 2147483646))
    then param_of name int_type none none (write_le 4 (pattern_of 32 n))
    else param_of name float_type none none (write_le 8 (build.int_to_float n))
