-- ===== src/Conversions.antt =====
-- src/conversions.cpp and src/conversions.h: dates of the server as dates of Qore, and back. The
-- dates of Qore are what the calls of its constructors are given.
pub mod Decode
pub mod Encode
pub mod RoundTrip
use module_sybase.Base.{
  ℕ, suc, ◌+◌, ◌-◌, ◌*◌, ◌/◌, ◌%◌, ◌^◌, Bool, true, false, Option, none, some, ◌++◌, if◌then◌else◌,
  ltb, ℤ, pos, negsuc, sub_ℕ, pos_part, neg_part, ◌+ℤ◌, ◌-ℤ◌, scale, quot, to_i32, to_u32, ltb_ℤ,
  Bytes, text,
}
use module_sybase.Build.{Build, Exception, exception}

abbrev pub syb_days_to_epoch : ℕ
syb_days_to_epoch = 25567

-- `uint32_t`, as the product fits.
abbrev pub syb_secs_to_epoch : ℕ
syb_secs_to_epoch = syb_days_to_epoch * 86400 % 2 ^ 32

-- The negation of `YEAR_ZERO_SECS`.
abbrev pub year_zero_secs : ℕ
year_zero_secs = 62167219200

-- `CS_DATETIME`: days from 1900-01-01, and 300ths of a second from midnight.
pub record CsDatetime : Type 0 where
  pub dtdays : ℤ
  pub dttime : ℤ

-- `CS_DATETIME4`: days from 1900-01-01, and minutes from midnight.
pub record CsDatetime4 : Type 0 where
  pub days : ℕ
  pub minutes : ℕ

-- `DateTimeNode(secs, ms)` with `setZone(tz)` if there is a zone, `DateTimeNode(secs)`, and
-- `makeAbsoluteLocal(tz, secs, us)`.
pub data DateTimeNode (Z : Type 0) : Type 0 where
  epoch : ℤ → ℤ → Option Z → DateTimeNode Z
  absolute_local : Option Z → ℤ → ℤ → DateTimeNode Z

-- What the driver asks of a date that is bound; `formatted` is `format(*desc, "YYYY-DD-MM")`.
pub record DateTime : Type 0 where
  pub is_relative : Bool
  pub epoch_seconds : ℤ
  pub microsecond : ℕ
  pub formatted : Bytes

-- `n / d` to the nearest integer, as `round` gives it.
abbrev pub round_div : ℕ → ℕ → ℕ
round_div n d = (2 * n + d) / (2 * d)

-- `round(ticks * 3.3333333)`: milliseconds of 300ths of a second. The product is never half way
-- between two integers, so binary floating point rounds it as exact arithmetic does.
unfoldable pub ticks_to_ms : ℤ → ℤ
ticks_to_ms t =
    sub_ℕ (round_div (pos_part t * 33333333) 10000000) (round_div (neg_part t * 33333333) 10000000)

-- `dttime / 300` and `dttime - secs * 300`.
unfoldable pub tick_secs : ℤ → ℤ
tick_secs t = quot t 300

unfoldable pub tick_rest : ℤ → ℤ
tick_rest t = t -ℤ scale 300 (tick_secs t)

-- The conversion of a `uint64_t` to `int64_t`.
unfoldable pub to_i64 : ℕ → ℤ
to_i64 a = if ltb a (2 ^ 63) then pos a else sub_ℕ a (2 ^ 64)

module _ {Z : Type 0} where
  -- `TIME_to_DateTime`
  unfoldable pub time_to_date_time : CsDatetime → Option Z → DateTimeNode Z
  time_to_date_time dt tz = epoch (tick_secs dt.dttime) (ticks_to_ms (tick_rest dt.dttime)) tz

  -- `DATETIME_to_DateTime`
  unfoldable pub datetime_to_date_time : CsDatetime → Option Z → DateTimeNode Z
  datetime_to_date_time dt tz =
      epoch (tick_secs dt.dttime +ℤ scale 86400 dt.dtdays -ℤ pos syb_secs_to_epoch)
        (ticks_to_ms (tick_rest dt.dttime)) tz

  -- `BIGDATETIME_to_DateTime`: the sum is computed in `uint64_t`.
  unfoldable pub bigdatetime_to_date_time : ℕ → Option Z → DateTimeNode Z
  bigdatetime_to_date_time dt tz =
      absolute_local tz (to_i64 ((dt / 1000000 + (2 ^ 64 - year_zero_secs)) % 2 ^ 64))
        (pos (dt - dt / 1000000 * 1000000))

  -- `BIGTIME_to_DateTime`
  unfoldable pub bigtime_to_date_time : ℕ → Option Z → DateTimeNode Z
  bigtime_to_date_time dt tz =
      absolute_local tz (to_i64 (dt / 1000000)) (pos (dt - dt / 1000000 * 1000000))

  -- `DATE_to_DateTime`: `dt` and the constants are 32-bit unsigned numbers, and so is the result,
  -- which is then widened.
  unfoldable pub date_to_date_time : ℕ → Option Z → DateTimeNode Z
  date_to_date_time dt tz =
      absolute_local tz (pos ((dt * 60 * 60 * 24 % 2 ^ 32 + (2 ^ 32 - syb_secs_to_epoch)) % 2 ^ 32))
        (pos 0)

  -- `DATETIME4_to_DateTime`
  unfoldable pub datetime4_to_date_time : CsDatetime4 → DateTimeNode Z
  datetime4_to_date_time dt =
      epoch (pos (dt.minutes * 60 + dt.days * 86400) -ℤ pos syb_secs_to_epoch) (pos 0) none

-- 9999-12-31 23:59:59 and 1753-01-01 00:00:00, the latter negated.
abbrev pub max_secs : ℕ
max_secs = 253402300799

abbrev pub min_secs : ℕ
min_secs = 6847804800

abbrev pub too_late : DateTime → Exception
too_late dt =
    exception (text "TDS-DATE-ERROR")
      (text "maximum sybase datetime value is 9999-12-31, date passed: " ++ dt.formatted)

abbrev pub too_early : DateTime → Exception
too_early dt =
    exception (text "TDS-DATE-ERROR")
      (text "minumum sybase datetime value is 1753-01-01, date passed: " ++ dt.formatted)

abbrev pub relative_date : Exception
relative_date =
    exception (text "TDS-DATE-ERROR") (text "relative date passed for binding as absolute date")

-- `check_epoch`: `none` is 0, and an exception that is raised is -1.
unfoldable pub check_epoch : ℤ → DateTime → Option Exception
check_epoch secs dt =
    if ltb_ℤ (pos max_secs) secs
    then some (too_late dt)
    else if ltb min_secs (neg_part secs)
    then some (too_early dt)
    else none

-- `(int)round(us / 3333.3333333)`, or from milliseconds by 3.3333333 where the library has no time
-- zones. Neither quotient is half way between two integers.
unfoldable pub us_to_ticks : Build → ℕ → ℕ
us_to_ticks build us =
    if build.has_time_zones
    then round_div (us * 10000000) 33333333333
    else round_div (us / 1000 * 10000000) 33333333

pub data Encoded : Type 0 where
  encoded : CsDatetime → Encoded
  refused : Exception → Encoded

-- The fields of a date in range. `days * 86400` is computed in 32 bits: the overflow is taken to
-- wrap around, as the final conversion to `CS_INT` then cancels it.
unfoldable pub datetime_of : ℤ → ℕ → CsDatetime
datetime_of secs ticks = record {
  dtdays = to_i32 (days +ℤ pos syb_days_to_epoch);
  dttime = to_i32 (scale 300 (secs -ℤ to_i32 (scale 86400 days)) +ℤ pos ticks);
}
  where
    days : ℤ
    days = quot secs 86400

-- `DateTime_to_DATETIME`
unfoldable pub date_time_to_datetime : Build → DateTime → Encoded
unfolding check_epoch datetime_of
date_time_to_datetime build dt =
    if dt.is_relative then refused relative_date else elim (check_epoch dt.epoch_seconds dt) [
      | some e ↦ refused e
      | none ↦ encoded (datetime_of dt.epoch_seconds (us_to_ticks build dt.microsecond))
    ]
