-- ===== src/Command/Convert/Known.antt =====
-- Which columns `get_value` knows.
use module_sybase.Base.{Bool, true, false, ◌≡◌, ◌≢◌, arith}
use module_sybase.Build.{Build}
use module_sybase.Ct.{
  CsType, bigint_type, bigdatetime_type, bigtime_type, date_type, other_type, Datafmt, Cell,
}
use module_sybase.Effect.{Connection}
use module_sybase.Command.Describe.{describe_column}
use module_sybase.Command.Convert.{
  unknown_type, value_of, convert, longchar_value, char_value, binary_value,
}

-- The types of the server that the driver supports, the last four where the library defines them.
abbrev pub is_supported : Build → CsType → Bool
is_supported build bigint_type = build.has_bigint
is_supported build bigdatetime_type = build.has_bigdatetime
is_supported build bigtime_type = build.has_bigtime
is_supported build date_type = build.has_date
is_supported build (other_type n) = false
is_supported build _ = true

longchar_known :
    (build : Build) (conn : Connection) (d : Datafmt) (c : Cell)
    → longchar_value build conn d c ≢ unknown_type
unfolding longchar_value
longchar_known build conn d c = ground arith

char_known :
    (build : Build) (conn : Connection) (d : Datafmt) (c : Cell)
    → char_value build conn d c ≢ unknown_type
unfolding char_value
char_known build conn d c = ground arith

binary_known : (c : Cell) → binary_value c ≢ unknown_type
unfolding binary_value
binary_known c = ground arith

-- A column whose type is supported is described so that `get_value` has a case for it, MONEY and
-- UNICHAR too.
pub value_of_known :
    (build : Build) (conn : Connection) (multi : Bool) (d : Datafmt) (c : Cell)
    → is_supported build d.datatype ≡ true
    → value_of build conn (describe_column build multi d) c ≢ unknown_type
unfolding value_of describe_column convert
value_of_known build conn multi d c h =
    ground (arith, longchar_known build conn, char_known build conn, binary_known c)
