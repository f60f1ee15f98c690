-- ===== src/Conversions/Encode.antt =====
-- What `DateTime_to_DATETIME` computes, against exact integer arithmetic.
use module_sybase.Base.{
  ℕ, suc, Bool, ◌+◌, ◌*◌, ◌/◌, ◌%◌, ◌<◌, ◌≤◌, ◌≡◌, ◌≢◌, ◌⊎◌, refl, none, some, true, false, inl,
  inr, ℤ, pos, negsuc, pos_part, neg_part, ◌-ℤ◌, ◌+ℤ◌, scale, arith, quot, ◌≤ℤ◌, to_i32, text, ap,
  Bool-cases, leb, ltb, ltb_ℤ, ◌&&◌, sym, ◌∙◌,
}
use module_sybase.Build.{Build, Exception}
use module_sybase.Conversions.{
  CsDatetime, DateTime, encoded, refused, datetime_of, us_to_ticks, date_time_to_datetime,
  check_epoch, max_secs, min_secs, syb_days_to_epoch, too_late, too_early, relative_date,
}

-- Between 1753-01-01 and 9999-12-31 23:59:59.
pub record InRange (secs : ℤ) : Type 0 where
  pub upper : pos_part secs ≤ max_secs
  pub lower : neg_part secs ≤ min_secs

-- The number of days, counted towards 1970-01-01, and what is left of the seconds.
abbrev pub whole_days : ℤ → ℤ
whole_days (pos n) = pos (n / 86400 + syb_days_to_epoch)
whole_days (negsuc n) = pos syb_days_to_epoch -ℤ pos (suc n / 86400)

abbrev pub day_ticks : ℤ → ℕ → ℤ
day_ticks (pos n) t = pos (n % 86400 * 300 + t)
day_ticks (negsuc n) t = pos t -ℤ pos (suc n % 86400 * 300)

to_i32_days :
    (secs : ℤ) → InRange secs → to_i32 (quot secs 86400 +ℤ pos syb_days_to_epoch) ≡ whole_days secs
unfolding to_i32 quot ◌+ℤ◌ ◌-ℤ◌
to_i32_days (pos n) h = ground arith
to_i32_days (negsuc n) h = ground arith

to_i32_ticks :
    (secs : ℤ) (t : ℕ)
    → InRange secs
    → t ≤ 300
    → to_i32 (scale 300 (secs -ℤ to_i32 (scale 86400 (quot secs 86400))) +ℤ pos t)
      ≡ day_ticks secs t
unfolding to_i32 quot ◌+ℤ◌ ◌-ℤ◌ scale
to_i32_ticks (pos n) t h k = ground arith
to_i32_ticks (negsuc n) t h k = ground arith

pub us_to_ticks-le : (build : Build) (us : ℕ) → us < 1000000 → us_to_ticks build us ≤ 300
unfolding us_to_ticks
us_to_ticks-le build us h = ground arith

pub datetime_of-exact :
    (secs : ℤ) (t : ℕ)
    → InRange secs
    → t ≤ 300
    → datetime_of secs t ≡ record { dtdays = whole_days secs; dttime = day_ticks secs t }
unfolding datetime_of
datetime_of-exact secs t h k = rw (to_i32_days secs h, to_i32_ticks secs t h k)

InRange-cases : (secs : ℤ) → InRange secs ⊎ (¬ InRange secs)
InRange-cases secs =
    elim (Bool-cases (leb (pos_part secs) max_secs && leb (neg_part secs) min_secs)) [
      | inl e ↦ inl (record { upper = ground arith; lower = ground arith })
      | inr e ↦ inr (λ w. beyond w.upper w.lower e)
    ]
  where
    beyond :
        pos_part secs ≤ max_secs
        → neg_part secs ≤ min_secs
        → (leb (pos_part secs) max_secs && leb (neg_part secs) min_secs) ≡ false
        → ⊥
    beyond u l e = ground arith

check_epoch-InRange : (secs : ℤ) (dt : DateTime) → InRange secs → check_epoch secs dt ≡ none
unfolding check_epoch
check_epoch-InRange secs dt w = ground arith

check_epoch-refuses :
    (secs : ℤ) (dt : DateTime)
    → ¬ InRange secs
    → (e : Exception) × (check_epoch secs dt ≡ some e) × (e.err ≡ text "TDS-DATE-ERROR")
unfolding check_epoch
check_epoch-refuses secs dt w = elim (Bool-cases (ltb_ℤ (pos max_secs) secs)) [
  | inl e ↦ (too_late dt, rw e, refl)
  | inr e ↦ elim (Bool-cases (ltb min_secs (neg_part secs))) [
    | inl k ↦ (too_early dt, rw (e, k), refl)
    | inr k ↦ absurd (w (record { upper = ground arith; lower = ground arith }))
  ]
]

-- What `date_time_to_datetime` makes of a date, with its fraction of a second.
pub date_time_to_datetime-ticks :
    (build : Build) (dt : DateTime)
    → dt.microsecond < 1000000
    → ((dt.is_relative ≡ false)
        × InRange dt.epoch_seconds
        × (date_time_to_datetime build dt
            ≡ encoded (record {
              dtdays = whole_days dt.epoch_seconds;
              dttime = day_ticks dt.epoch_seconds (us_to_ticks build dt.microsecond);
            })))
      ⊎ (((dt.is_relative ≡ true) ⊎ (¬ InRange dt.epoch_seconds))
          × (e : Exception) × (date_time_to_datetime build dt ≡ refused e)
          × (e.err ≡ text "TDS-DATE-ERROR"))
unfolding date_time_to_datetime
date_time_to_datetime-ticks build dt h = elim (Bool-cases dt.is_relative) [
  | inl e ↦ inr (inl e, relative_date, rw e, refl)
  | inr e ↦ elim (InRange-cases dt.epoch_seconds) [
    | inl w ↦ inl (
      e,
      w,
      rw (e, check_epoch-InRange dt.epoch_seconds dt w)
          (ap encoded (datetime_of-exact dt.epoch_seconds _ w (us_to_ticks-le build _ h))),
    )
    | inr w ↦
        let (x, k, c) = check_epoch-refuses dt.epoch_seconds dt w in inr (inr w, x, ground arith, c)
  ]
]

-- The number of 300ths of a second next to the fraction, of microseconds or, in a build without time
-- zones, of milliseconds; half of one counts as one.
pub IsTick : Bool → ℕ → ℕ → Type 0
IsTick true us t = (10000 * t ≤ 3 * us + 5000) × (3 * us + 5000 < 10000 * suc t)
IsTick false us t = (10 * t ≤ 3 * (us / 1000) + 5) × (3 * (us / 1000) + 5 < 10 * suc t)

us_to_ticks-IsTick :
    (build : Build) (us : ℕ) → us < 1000000 → IsTick build.has_time_zones us (us_to_ticks build us)
unfolding us_to_ticks IsTick
us_to_ticks-IsTick build us h = elim (Bool-cases build.has_time_zones) [
  | inl e ↦ rw e (ground arith)
  | inr e ↦ rw e (ground arith)
]

-- A date is bound exactly if it is absolute and lies between 1753-01-01 and 9999-12-31 23:59:59, and
-- otherwise an exception with code TDS-DATE-ERROR is raised. A date that is bound gets the whole days
-- between it and 1970, which are counted towards 1970, and the 300ths of a second that are left, with
-- those next to its fraction of a second; they are negative for a date before 1970 that is more than
-- a second off midnight.
pub date_time_to_datetime-exact :
    (build : Build) (dt : DateTime)
    → dt.microsecond < 1000000
    → ((dt.is_relative ≡ false)
        × InRange dt.epoch_seconds
        × (t : ℕ) × IsTick build.has_time_zones dt.microsecond t
        × (date_time_to_datetime build dt
            ≡ encoded (record {
              dtdays = whole_days dt.epoch_seconds;
              dttime = day_ticks dt.epoch_seconds t;
            })))
      ⊎ (((dt.is_relative ≡ true) ⊎ (¬ InRange dt.epoch_seconds))
          × (e : Exception) × (date_time_to_datetime build dt ≡ refused e)
          × (e.err ≡ text "TDS-DATE-ERROR"))
date_time_to_datetime-exact build dt h = elim (date_time_to_datetime-ticks build dt h) [
  | inl (a, w, e) ↦
      inl (a, w, us_to_ticks build dt.microsecond, us_to_ticks-IsTick build dt.microsecond h, e)
  | inr x ↦ inr x
]

pub day_ticks_bounds :
    (secs : ℤ) (t : ℕ)
    → t ≤ 300
    → (pos_part (day_ticks secs t) ≤ 25920000) × (neg_part (day_ticks secs t) ≤ 25919700)
unfolding ◌-ℤ◌
day_ticks_bounds (pos n) t k = omega arith
day_ticks_bounds (negsuc n) t k = ground arith

pub encoded-ne-refused : {a : CsDatetime} {e : Exception} → encoded a ≢ refused e
encoded-ne-refused h = cc

pub encoded-injective : {a b : CsDatetime} → encoded a ≡ encoded b → a ≡ b
encoded-injective h = cc

-- The clock part of a date before 1970 that is bound is negative, wherever the time of the day is
-- more than a second off midnight.
pub date_time_to_datetime_before_1970 :
    (build : Build) (dt : DateTime) (n : ℕ) {d : CsDatetime}
    → dt.microsecond < 1000000
    → dt.epoch_seconds ≡ negsuc n
    → 1 < suc n % 86400
    → date_time_to_datetime build dt ≡ encoded d
    → d.dttime ≤ℤ negsuc 299
date_time_to_datetime_before_1970 build dt n {d} h e k b =
    elim (date_time_to_datetime-ticks build dt h) [
      | inl (_, w, x) ↦
          let same = ap (λ (c : CsDatetime). c.dttime) (encoded-injective (sym b ∙ x)) in
          rw (same, e) (unfold ◌-ℤ◌ in ground (arith, us_to_ticks-le build dt.microsecond h))
      | inr (_, x, y, _) ↦ absurd (encoded-ne-refused (sym b ∙ y))
    ]
