-- ===== src/Tests/Params.antt =====
-- Parameters: the theorems on a query with a `%v`, a `%d` and a `%v`.
use module_sybase.Base.{ℕ, pos, Option, none, some, List, [], ◌∷◌, text, true, false}
use module_sybase.Conversions.{DateTime}
use module_sybase.Ct.{Param, int_type, bigint_type}
use module_sybase.Command.Arguments.{Arg, arg_int, arg_bool, QoreTm}

abbrev midnight : ℕ → DateTime → QoreTm
midnight tz d = record {
  year = 2020;
  month = 1;
  day = 31;
  hour = 0;
  minute = 0;
  second = 0;
  us = 0;
}

abbrev kinds : List ℕ
kinds = b'v' ∷ b'd' ∷ b'v' ∷ []

abbrev args : Option (List Arg)
args = some (arg_int (pos 7) ∷ arg_int (pos 8) ∷ arg_bool true ∷ [])

abbrev params : List Param
params =
    record {
      name = text "@par1";
      datatype = some bigint_type;
      format = none;
      maxlength = none;
      value = some (7 ∷ 0 ∷ 0 ∷ 0 ∷ 0 ∷ 0 ∷ 0 ∷ 0 ∷ []);
      is_null = false;
    }
    ∷ record {
      name = text "@par3";
      datatype = some int_type;
      format = none;
      maxlength = none;
      value = some (1 ∷ 0 ∷ 0 ∷ 0 ∷ 0 ∷ 0 ∷ 0 ∷ 0 ∷ []);
      is_null = false;
    }
    ∷ []
