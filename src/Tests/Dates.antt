-- ===== src/Tests/Dates.antt =====
-- Dates: the theorems at concrete dates.
use module_sybase.Base.{
  ℕ, ◌+◌, ◌*◌, ◌/◌, ◌<◌, ◌≤◌, ◌≡◌, ◌↔◌, ◌⊎◌, refl, arith, pos, negsuc, ◌≤ℤ◌, ◌+ℤ◌, ◌-ℤ◌, scale,
  quot, to_i32, to_u32, Option, some, [], text, true, false,
}
use module_sybase.Build.{Exception}
use module_sybase.Conversions.{
  DateTime, CsDatetime, epoch, absolute_local, bigdatetime_to_date_time, date_to_date_time,
  datetime_to_date_time, datetime_of, year_zero_secs, date_time_to_datetime, encoded, refused,
  us_to_ticks, check_epoch,
}
use module_sybase.Conversions.Decode.{bigdatetime_exact, date_secs, date_to_date_time_iff}
use module_sybase.Conversions.Encode.{
  InRange, IsTick, whole_days, day_ticks, date_time_to_datetime-exact,
  date_time_to_datetime_before_1970,
}
use module_sybase.Conversions.RoundTrip.{IsNear, node_us, datetime_round_trip, datetime-IsNear}
use module_sybase.Tests.Fixture.{build}

abbrev tz : Option ℕ
tz = some 1

bigdatetime_exact_example :
    (us : ℕ) × (us < 1000000)
    × (bigdatetime_to_date_time 62167219201000005 tz
        ≡ absolute_local tz (pos (62167219201000005 / 1000000) -ℤ pos year_zero_secs) (pos us))
    × (62167219201000005 ≡ 62167219201000005 / 1000000 * 1000000 + us)
bigdatetime_exact_example = bigdatetime_exact tz 62167219201000005 (omega arith)

date_to_date_time_iff_example :
    (date_to_date_time 25566 tz ≡ absolute_local tz (date_secs tz 25566) (pos 0))
    ↔ ((25567 ≤ 25566) × (25566 ≤ 75277))
date_to_date_time_iff_example = date_to_date_time_iff tz 25566 (omega arith)

-- 1969-12-31 12:00:00.5
abbrev before_1970 : DateTime
before_1970 = record {
  is_relative = false;
  epoch_seconds = negsuc 43199;
  microsecond = 500000;
  formatted = [];
}

abbrev its_datetime : CsDatetime
its_datetime = record { dtdays = pos 25567; dttime = negsuc 12959849 }

date_time_to_datetime-exact_example :
    ((before_1970.is_relative ≡ false)
      × InRange before_1970.epoch_seconds
      × (t : ℕ) × IsTick true before_1970.microsecond t
      × (date_time_to_datetime build before_1970
          ≡ encoded (record {
            dtdays = whole_days before_1970.epoch_seconds;
            dttime = day_ticks before_1970.epoch_seconds t;
          })))
    ⊎ (((before_1970.is_relative ≡ true) ⊎ (¬ InRange before_1970.epoch_seconds))
        × (e : Exception) × (date_time_to_datetime build before_1970 ≡ refused e)
        × (e.err ≡ text "TDS-DATE-ERROR"))
date_time_to_datetime-exact_example = date_time_to_datetime-exact build before_1970 (omega arith)

date_time_to_datetime_before_1970_example : negsuc 12959849 ≤ℤ negsuc 299
unfolding date_time_to_datetime check_epoch datetime_of us_to_ticks quot to_i32 ◌+ℤ◌ ◌-ℤ◌ scale
    to_u32
date_time_to_datetime_before_1970_example =
    date_time_to_datetime_before_1970 build before_1970 43199 {d = its_datetime} (omega arith) refl
      (omega arith) refl

datetime_round_trip_example :
    datetime_to_date_time (datetime_of (negsuc 43199) 0) tz ≡ epoch (negsuc 43199) (pos 0) tz
datetime_round_trip_example =
    datetime_round_trip (negsuc 43199) tz (record { upper = omega arith; lower = omega arith })

datetime-IsNear_example :
    IsNear 2168
      (node_us (datetime_to_date_time its_datetime tz))
      (scale 1000000 (negsuc 43199) +ℤ pos 500000)
unfolding date_time_to_datetime check_epoch datetime_of us_to_ticks quot to_i32 ◌+ℤ◌ ◌-ℤ◌ scale
    to_u32
datetime-IsNear_example =
    datetime-IsNear build before_1970 tz {d = its_datetime} refl (omega arith) refl
