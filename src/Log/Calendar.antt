-- ===== src/Log/Calendar.antt =====
-- src/log.rs: that the days of the log are days of the calendar.
use gatefs.Log.{day_of_year, month_day, year_of_era}
use gatefs.Base.{
  Bool, ap, arith, if◌then◌else◌, leb, ltb, nat_eq, not, refl, suc, zero, ℕ, ◌%◌, ◌&&◌, ◌*◌, ◌+◌,
  ◌<◌, ◌||◌, ◌∙◌, ◌≡◌, ◌≤◌,
}

-- The Gregorian calendar: its leap years, its months, and the day after a day.
unfoldable pub is_leap : ℕ → Bool
is_leap year = nat_eq (year % 4) 0 && (not (nat_eq (year % 100) 0) || nat_eq (year % 400) 0)

unfoldable pub days_in_month : ℕ → ℕ → ℕ
unfolding is_leap
days_in_month year month =
    if nat_eq month 2
    then (if is_leap year then 29 else 28)
    else if nat_eq month 4 || (nat_eq month 6 || (nat_eq month 9 || nat_eq month 11))
    then 30
    else 31

unfoldable pub next_day : ℕ × (ℕ × ℕ) → ℕ × (ℕ × ℕ)
unfolding days_in_month
next_day (year, (month, day)) =
    if ltb day (days_in_month year month)
    then (year, (month, day + 1))
    else if nat_eq month 12
    then (year + 1, (1, 1))
    else (year, (month + 1, 1))

-- The date so many days after the first of January of 1970.
unfoldable pub date_after : ℕ → ℕ × (ℕ × ℕ)
unfolding next_day
date_after zero = (1970, (1, 1))
date_after (suc days) = next_day (date_after days)

-- A date of the calendar, from 1970 on.
abbrev pub IsDate : ℕ × (ℕ × ℕ) → Type 0
unfolding days_in_month
IsDate (year, (month, day)) =
    (1970 ≤ year) × ((1 ≤ month) × ((month ≤ 12) × ((1 ≤ day) × (day ≤ days_in_month year month))))

next_day-IsDate : (date : ℕ × (ℕ × ℕ)) → IsDate date → IsDate (next_day date)
unfolding next_day days_in_month is_leap IsDate
next_day-IsDate (year, (month, day)) h = ground arith

pub date_after-IsDate : (days : ℕ) → IsDate (date_after days)
unfolding date_after IsDate days_in_month
date_after-IsDate zero = (omega arith, (omega arith, (omega arith, (omega arith, omega arith))))
date_after-IsDate (suc days) = next_day-IsDate (date_after days) (date_after-IsDate days)

unfoldable pub year_length : ℕ → ℕ
unfolding is_leap
year_length yoe = if is_leap (yoe + 1) then 366 else 365

year_below : (doe : ℕ) → doe < 146097 → year_of_era doe < 400
unfolding year_of_era
year_below doe h = omega arith

pub same_year :
    (doe : ℕ)
    → doe + 1 < 146097
    → day_of_year doe (year_of_era doe) + 1 < year_length (year_of_era doe)
    → (year_of_era (doe + 1) ≡ year_of_era doe)
      × (day_of_year (doe + 1) (year_of_era doe) ≡ day_of_year doe (year_of_era doe) + 1)
unfolding year_of_era day_of_year year_length is_leap
same_year doe h k = ground arith

pub new_year :
    (doe : ℕ)
    → doe + 1 < 146097
    → year_length (year_of_era doe) ≤ day_of_year doe (year_of_era doe) + 1
    → (year_of_era (doe + 1) ≡ year_of_era doe + 1)
      × ((day_of_year (doe + 1) (year_of_era doe + 1) ≡ 0)
          × (day_of_year doe (year_of_era doe) + 1 ≡ year_length (year_of_era doe)))
unfolding year_of_era day_of_year year_length is_leap
new_year doe h k = ground arith

-- A day of a year that starts in March, as a date.
unfoldable pub year_date : ℕ → ℕ → ℕ × (ℕ × ℕ)
unfolding month_day
year_date year doy = (year + (if leb (month_day doy).0 2 then 1 else 0), month_day doy)

-- The day after, within such a year; the flag says whether its last month has 29 days.
month_length : Bool → ℕ → ℕ
month_length leap month =
    if nat_eq month 2
    then (if leap then 29 else 28)
    else if nat_eq month 4 || (nat_eq month 6 || (nat_eq month 9 || nat_eq month 11))
    then 30
    else 31

next_month_day : Bool → ℕ × ℕ → ℕ × ℕ
unfolding month_length
next_month_day leap (month, day) =
    if ltb day (month_length leap month)
    then (month, day + 1)
    else if nat_eq month 12
    then (1, 1)
    else (month + 1, 1)

month_day-next :
    (leap : Bool) (doy : ℕ)
    → doy + 1 < (if leap then 366 else 365)
    → month_day (doy + 1) ≡ next_month_day leap (month_day doy)
unfolding month_day next_month_day month_length
month_day-next leap doy h = ground arith

february :
    (leap : Bool) (doy : ℕ)
    → doy + 1 < (if leap then 366 else 365)
    → (month_day doy).0 ≡ 2
    → (month_day doy).1 < (if leap then 29 else 28)
unfolding month_day
february leap doy h k = ground arith

month_bounds : (doy : ℕ) → doy < 366 → (1 ≤ (month_day doy).0) × ((month_day doy).0 ≤ 12)
unfolding month_day
month_bounds doy h = ground arith

next_day-next_month_day :
    (year month day : ℕ) (leap : Bool)
    → is_leap (year + 1) ≡ leap
    → 1 ≤ month
    → month ≤ 12
    → (month ≡ 2 → day < (if leap then 29 else 28))
    → (
      year + (if leb (next_month_day leap (month, day)).0 2 then 1 else 0),
      next_month_day leap (month, day),
    )
      ≡ next_day (year + (if leb month 2 then 1 else 0), (month, day))
unfolding next_month_day month_length next_day days_in_month
next_day-next_month_day year month day leap e h k f = ground (arith, e)

pub day_in_year :
    (year doy : ℕ)
    → doy + 1 < year_length year
    → year_date year (doy + 1) ≡ next_day (year_date year doy)
unfolding year_date year_length
day_in_year year doy h =
    ap (λ (date : ℕ × ℕ). (year + (if leb date.0 2 then 1 else 0), date))
      (month_day-next (is_leap (year + 1)) doy h)
    ∙ next_day-next_month_day year (month_day doy).0 (month_day doy).1 (is_leap (year + 1)) refl
        (month_bounds doy below).0 (month_bounds doy below).1 (february (is_leap (year + 1)) doy h)
  where
    longest : (leap : Bool) → doy + 1 < (if leap then 366 else 365) → doy < 366
    longest leap k = ground arith

    below : doy < 366
    below = longest (is_leap (year + 1)) h

pub last_day :
    (year doy : ℕ)
    → doy + 1 ≡ year_length year
    → year_date (year + 1) 0 ≡ next_day (year_date year doy)
unfolding year_date month_day next_day days_in_month year_length is_leap
last_day year doy h = ground arith

pub year_length-era : (yoe era : ℕ) → year_length (yoe + era * 400) ≡ year_length yoe
unfolding year_length is_leap
year_length-era yoe era = ground arith
