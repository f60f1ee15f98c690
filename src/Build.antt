-- ===== src/Build.antt =====
-- How the module is compiled, the macros that src/ tests, with the machine and the Qore library that
-- it runs on; and what `raiseException` records. The FreeTDS and the Sybase builds of the driver are
-- the same sources under different macros.
use module_sybase.Base.{ℕ, ℤ, Bool, Bytes}

pub record Build : Type 0 where
  -- `FREETDS`, `SYBASE`
  pub freetds : Bool
  pub sybase : Bool
  -- `_QORE_HAS_TIME_ZONES`
  pub has_time_zones : Bool
  -- `CS_BIGINT_TYPE`, `CS_BIGDATETIME_TYPE`, `CS_BIGTIME_TYPE` and `CS_DATE_TYPE` are defined
  pub has_bigint : Bool
  pub has_bigdatetime : Bool
  pub has_bigtime : Bool
  pub has_date : Bool
  -- the machine's conversions of a `float` and of an `int64_t` to `double`, on bit patterns
  pub real_to_float : ℕ → ℕ
  pub int_to_float : ℤ → ℕ
  -- Qore's `currentTZ()`
  pub current_tz : ℕ

-- An exception with its code and its description.
pub record Exception : Type 0 where
  pub err : Bytes
  pub desc : Bytes

abbrev pub exception : Bytes → Bytes → Exception
exception e d = record { err = e; desc = d }
