-- ===== src/Log/Civil.antt =====
-- src/log.rs: that `civil_from_days` counts the days of the calendar.
use gatefs.Int.{as_i32, pos, pos_part, quot, ℤ, ◌*ℤ◌, ◌+ℤ◌, ◌-ℤ◌}
use gatefs.Log.{civil_from_days, civil_in_era, era_of}
use gatefs.Log.Calendar.{IsDate, date_after, date_after-IsDate}
use gatefs.Log.Counted.{counted, counted-date_after, counted-year, counted_in_era}
use gatefs.Base.{ap, arith, refl, subst, sym, ℕ, ◌*◌, ◌+◌, ◌-◌, ◌/◌, ◌<◌, ◌^◌, ◌∙◌, ◌≡◌}

as_i32-pos : (n : ℕ) → n < 2 ^ 31 → as_i32 (pos n) ≡ pos n
unfolding as_i32
as_i32-pos n h = ground arith

pos-+ℤ : (m n : ℕ) → pos m +ℤ pos n ≡ pos (m + n)
unfolding ◌+ℤ◌
pos-+ℤ m n = ground arith

pos-*ℤ : (m n : ℕ) → pos m *ℤ pos n ≡ pos (m * n)
unfolding ◌*ℤ◌
pos-*ℤ m n = ground arith

pos_part-sub : (z m : ℕ) → pos_part (pos z -ℤ pos m) ≡ z - m
unfolding ◌-ℤ◌
pos_part-sub z m = ground arith

civil_in_era-counted :
    (era doe : ℕ)
    → civil_in_era (pos era) doe
      ≡ (as_i32 (pos (counted_in_era era doe).0), (counted_in_era era doe).1)
unfolding civil_in_era counted_in_era
civil_in_era-counted era doe = rw (pos-*ℤ era 400, pos-+ℤ, pos-+ℤ) refl

civil_from_days-counted :
    (days : ℕ) → civil_from_days (pos days) ≡ (as_i32 (pos (counted days).0), (counted days).1)
unfolding civil_from_days counted era_of quot
civil_from_days-counted days =
    rw (pos-+ℤ days 719468, pos-*ℤ ((days + 719468) / 146097) 146097, pos_part-sub)
      (civil_in_era-counted ((days + 719468) / 146097)
        (days + 719468 - (days + 719468) / 146097 * 146097))

-- The date of a log line's day is the date of the Gregorian calendar, counted day by day from the
-- first of January of 1970, for the first 783000000000 days, after which the year may be too large for
-- 32 bits.
pub civil_from_days-date_after :
    (days : ℕ)
    → days < 783000000000
    → civil_from_days (pos days) ≡ (pos (date_after days).0, (date_after days).1)
civil_from_days-date_after days h =
    civil_from_days-counted days
    ∙ ap (λ (year : ℤ). (year, (counted days).1))
        (as_i32-pos (counted days).0 (omega (arith, counted-year days, h)))
    ∙ ap (λ (date : ℕ × (ℕ × ℕ)). (pos date.0, date.1)) (counted-date_after days)

-- For the first 783000000000 days since the epoch the date of a log line is one of the calendar: its
-- month is one of the twelve and its day one of that month's, in that year, which is 1970 or later
-- and fits 32 bits.
pub civil_from_days-IsDate :
    (days : ℕ)
    → days < 783000000000
    → (year : ℕ) × ((civil_from_days (pos days)).0 ≡ pos year)
      × (year < 2 ^ 31)
      × IsDate (year, (civil_from_days (pos days)).1)
civil_from_days-IsDate days h = (
  (date_after days).0,
  ap (λ (date : ℤ × (ℕ × ℕ)). date.0) (civil_from_days-date_after days h),
  omega
      (arith, counted-year days, h, ap (λ (date : ℕ × (ℕ × ℕ)). date.0) (counted-date_after days)),
  subst (λ (date : ℕ × ℕ). IsDate ((date_after days).0, date))
      (sym (ap (λ (date : ℤ × (ℕ × ℕ)). date.1) (civil_from_days-date_after days h)))
      (date_after-IsDate days),
)
