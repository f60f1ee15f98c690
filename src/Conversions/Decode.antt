-- ===== src/Conversions/Decode.antt =====
-- What the conversions from the server's dates compute, against exact integer arithmetic.
use module_sybase.Base.{ℕ, ◌+◌, ◌-◌, ◌*◌, ◌/◌, ◌^◌, ◌<◌, ◌≤◌, ◌≡◌, ◌↔◌, Option, ℤ, pos, ◌-ℤ◌, arith}
use module_sybase.Conversions.{
  absolute_local, bigdatetime_to_date_time, date_to_date_time, to_i64, syb_secs_to_epoch,
  year_zero_secs,
}

module _ {Z : Type 0} (tz : Option Z) where
  -- A CS_BIGDATETIME below 2 ^ 64 is decoded with no wrap-around left: its seconds are counted from
  -- the year 0 and its microseconds are below a million.
  pub bigdatetime_exact :
      (dt : ℕ)
      → dt < 2 ^ 64
      → (us : ℕ) × (us < 1000000)
        × (bigdatetime_to_date_time dt tz
            ≡ absolute_local tz (pos (dt / 1000000) -ℤ pos year_zero_secs) (pos us))
        × (dt ≡ dt / 1000000 * 1000000 + us)
  unfolding bigdatetime_to_date_time to_i64 ◌-ℤ◌
  bigdatetime_exact dt h = (dt - dt / 1000000 * 1000000, omega arith, ground arith, omega arith)

  -- The seconds that a CS_DATE of `dt` days stands for.
  abbrev pub date_secs : ℕ → ℤ
  date_secs dt = pos (dt * 86400) -ℤ pos syb_secs_to_epoch

  -- A CS_DATE below 2 ^ 32 is decoded rightly exactly where it lies between 1970-01-01 and
  -- 2106-02-07, that is from day 25567 to day 75277 from 1900-01-01 on.
  pub date_to_date_time_iff :
      (dt : ℕ)
      → dt < 2 ^ 32
      → (date_to_date_time dt tz ≡ absolute_local tz (date_secs dt) (pos 0))
        ↔ ((25567 ≤ dt) × (dt ≤ 75277))
  unfolding date_to_date_time ◌-ℤ◌
  date_to_date_time_iff dt h = (λ e. ground arith, λ w. ground arith)
