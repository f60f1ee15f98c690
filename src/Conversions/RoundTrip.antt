-- ===== src/Conversions/RoundTrip.antt =====
-- A date that is bound and read back.
use module_sybase.Base.{
  ℕ, suc, ◌+◌, ◌*◌, ◌/◌, ◌%◌, ◌<◌, ◌≤◌, ◌≡◌, Option, true, inl, inr, ℤ, pos, negsuc, pos_part,
  neg_part, ◌-ℤ◌, ◌+ℤ◌, scale, arith, quot, ◌≤ℤ◌, ap,
}
use module_sybase.Build.{Build}
use module_sybase.Conversions.{
  CsDatetime, DateTime, DateTimeNode, epoch, absolute_local, encoded, datetime_of, us_to_ticks,
  date_time_to_datetime, datetime_to_date_time, tick_secs, tick_rest, ticks_to_ms,
  syb_days_to_epoch, syb_secs_to_epoch,
}
use module_sybase.Base.{int_laws, sym, ◌∙◌}
use module_sybase.Conversions.{round_div}
use module_sybase.Conversions.Encode.{
  InRange, whole_days, day_ticks, datetime_of-exact, date_time_to_datetime-ticks, encoded-injective,
  encoded-ne-refused,
}

-- The seconds that are read back from the fields of a bound date.
read_secs : ℤ → ℕ → ℤ
read_secs secs t =
    tick_secs (day_ticks secs t) +ℤ scale 86400 (whole_days secs) -ℤ pos syb_secs_to_epoch

read_secs-whole : (secs : ℤ) → InRange secs → read_secs secs 0 ≡ secs
unfolding read_secs tick_secs quot ◌+ℤ◌ ◌-ℤ◌ scale
read_secs-whole (pos n) h = ground arith
read_secs-whole (negsuc n) h = ground arith

read_ms-whole : (secs : ℤ) → ticks_to_ms (tick_rest (day_ticks secs 0)) ≡ pos 0
unfolding ticks_to_ms tick_rest tick_secs quot ◌-ℤ◌ scale
read_ms-whole (pos n) = ground arith
read_ms-whole (negsuc n) = ground arith

-- The microseconds from the epoch that a date read back stands for.
abbrev read_us : ℤ → ℕ → ℤ
read_us secs t =
    scale 1000000 (read_secs secs t) +ℤ scale 1000 (ticks_to_ms (tick_rest (day_ticks secs t)))

-- At most `k` apart.
abbrev pub IsNear : ℕ → ℤ → ℤ → Type 0
IsNear k a b = (a ≤ℤ b +ℤ pos k) × (b ≤ℤ a +ℤ pos k)

ticks_near_us :
    (build : Build) (us : ℕ)
    → build.has_time_zones ≡ true
    → us < 1000000
    → (us_to_ticks build us * 10000 ≤ us * 3 + 5001)
      × (us * 3 ≤ us_to_ticks build us * 10000 + 5001)
unfolding us_to_ticks
ticks_near_us build us e h = ground arith

-- A number that is not positive, by its size.
abbrev IsNeg : ℤ → ℕ → Type 0
IsNeg a k = (pos_part a ≡ 0) × (neg_part a ≡ k)

tick_secs-IsNeg : (n : ℕ) → IsNeg (tick_secs (negsuc n)) (suc n / 300)
unfolding tick_secs quot
tick_secs-IsNeg n = ground arith

tick_rest-IsNeg : (n : ℕ) → IsNeg (tick_rest (negsuc n)) (suc n % 300)
unfolding tick_rest tick_secs quot scale ◌-ℤ◌
tick_rest-IsNeg n = ground arith

ticks_to_ms-IsNeg :
    (a : ℤ) (k : ℕ) → IsNeg a k → IsNeg (ticks_to_ms a) (round_div (k * 33333333) 10000000)
unfolding ticks_to_ms
ticks_to_ms-IsNeg a k h = ground arith

-- The seconds and the milliseconds of a clock part, against the clock part itself.
ticks-IsNear :
    (x : ℤ)
    → IsNear 1500
        (scale 3000000 (tick_secs x) +ℤ scale 3000 (ticks_to_ms (tick_rest x)))
        (scale 10000 x)
ticks-IsNear (pos n) =
    unfold ticks_to_ms tick_rest tick_secs quot ◌+ℤ◌ ◌-ℤ◌ scale in (ground arith, ground arith)
ticks-IsNear (negsuc n) =
    let rest = tick_rest-IsNeg n in
    let secs = tick_secs-IsNeg n in
    let ms = ticks_to_ms-IsNeg (tick_rest (negsuc n)) (suc n % 300) rest in
    (omega int_laws, omega int_laws)

-- The day and the clock part of a date make up the date.
day_split :
    (secs : ℤ) (t : ℕ)
    → InRange secs
    → scale 25920000 (whole_days secs) +ℤ day_ticks secs t
      ≡ scale 300 secs +ℤ pos (t + 25920000 * syb_days_to_epoch)
unfolding ◌+ℤ◌ ◌-ℤ◌ scale
day_split (pos n) t h = ground arith
day_split (negsuc n) t h = ground arith

read_us-IsNear :
    (secs : ℤ) (t us : ℕ)
    → InRange secs
    → t * 10000 ≤ us * 3 + 5001
    → us * 3 ≤ t * 10000 + 5001
    → IsNear 2168 (read_us secs t) (scale 1000000 secs +ℤ pos us)
unfolding read_secs
read_us-IsNear secs t us h a b =
    let split = ap pos_part (day_split secs t h) in
    let split' = ap neg_part (day_split secs t h) in
    let near = ticks-IsNear (day_ticks secs t) in (omega int_laws, omega int_laws)

-- A date in range that lies on a full second is read back as it was bound, before 1970 too.
pub datetime_round_trip :
    {Z : Type 0} (secs : ℤ) (tz : Option Z)
    → InRange secs
    → datetime_to_date_time (datetime_of secs 0) tz ≡ epoch secs (pos 0) tz
unfolding datetime_to_date_time read_secs
datetime_round_trip secs tz h = rw (datetime_of-exact secs 0 h (omega arith)) (
    ap (λ s. epoch s (ticks_to_ms (tick_rest (day_ticks secs 0))) tz) (read_secs-whole secs h)
    ∙ ap (λ m. epoch secs m tz) (read_ms-whole secs))

-- The microseconds from the epoch that a date stands for.
abbrev pub node_us : {Z : Type 0} → DateTimeNode Z → ℤ
node_us (epoch s ms tz) = scale 1000000 s +ℤ scale 1000 ms
node_us (absolute_local tz s us) = scale 1000000 s +ℤ us

-- Any date in range that is bound is read back within 2168 microseconds, where the library has
-- time zones.
pub datetime-IsNear :
    {Z : Type 0} (build : Build) (dt : DateTime) (tz : Option Z) {d : CsDatetime}
    → build.has_time_zones ≡ true
    → dt.microsecond < 1000000
    → date_time_to_datetime build dt ≡ encoded d
    → IsNear 2168
        (node_us (datetime_to_date_time d tz))
        (scale 1000000 dt.epoch_seconds +ℤ pos dt.microsecond)
unfolding datetime_to_date_time read_secs
datetime-IsNear build dt tz {d} e h b = elim (date_time_to_datetime-ticks build dt h) [
  | inl (_, w, x) ↦
      let t = ticks_near_us build dt.microsecond e h in
      rw (encoded-injective (sym b ∙ x)) (
        read_us-IsNear dt.epoch_seconds (us_to_ticks build dt.microsecond) dt.microsecond w t.0 t.1)
  | inr (_, x, y, _) ↦ absurd (encoded-ne-refused (sym b ∙ y))
]
