-- ===== src/Log.antt =====
-- src/log.rs: the time and the text of a log line.
pub mod Calendar
pub mod Counted
pub mod Civil
use gatefs.Text.{Bytes, bytes, decimal}
use gatefs.Metadata.{SystemTime}
use gatefs.Int.{ℤ, as_i32, is_negative, negsuc, pos, pos_part, quot, ◌*ℤ◌, ◌+ℤ◌, ◌-ℤ◌}
use gatefs.Base.{Bool, [], if◌then◌else◌, leb, ltb, suc, ℕ, ◌%◌, ◌*◌, ◌++◌, ◌+◌, ◌-◌, ◌/◌, ◌∷◌}

-- A day of the era of 400 years that starts on the first of March of year 0.
unfoldable pub year_of_era : ℕ → ℕ
year_of_era doe = (doe - doe / 1460 + doe / 36524 - doe / 146096) / 365

unfoldable pub day_of_year : ℕ → ℕ → ℕ
day_of_year doe yoe = doe - (365 * yoe + yoe / 4 - yoe / 100)

-- The month and the day of a day of a year that starts in March.
unfoldable pub month_day : ℕ → ℕ × ℕ
month_day doy =
    let mp = (5 * doy + 2) / 153 in
    (if ltb mp 10 then mp + 3 else mp - 9, doy - (153 * mp + 2) / 5 + 1)

-- The date of a day of an era; the year is cast to 32 bits.
unfoldable pub civil_in_era : ℤ → ℕ → ℤ × (ℕ × ℕ)
unfolding year_of_era day_of_year month_day
civil_in_era era doe =
    let yoe = year_of_era doe in
    let date = month_day (day_of_year doe yoe) in
    (as_i32 (pos yoe +ℤ era *ℤ pos 400 +ℤ pos (if leb date.0 2 then 1 else 0)), date)

-- The era of a day, rounded down.
unfoldable pub era_of : ℤ → ℤ
era_of z = quot (if is_negative z then z -ℤ pos 146096 else z) 146097

-- `civil_from_days` of a day since the epoch; a day of an era is never negative.
unfoldable pub civil_from_days : ℤ → ℤ × (ℕ × ℕ)
unfolding civil_in_era era_of
civil_from_days days_since_epoch =
    let z = days_since_epoch +ℤ pos 719468 in
    let era = era_of z in civil_in_era era (pos_part (z -ℤ era *ℤ pos 146097))

-- `{n:02}`, `{n:04}` and `{n:06}`.
abbrev padded : ℕ → ℕ → Bytes → Bytes
padded bound n text = if ltb n bound then b'0' ∷ text else text

unfoldable pub two_digits : ℕ → Bytes
two_digits n = padded 10 n (decimal n)

unfoldable pub four_digits : ℕ → Bytes
four_digits n = padded 1000 n (padded 100 n (padded 10 n (decimal n)))

-- `{year:04}`: the sign counts as one of the four.
unfoldable pub four_signed : ℤ → Bytes
unfolding four_digits
four_signed (pos n) = four_digits n
four_signed (negsuc n) = b'-' ∷ padded 100 (suc n) (padded 10 (suc n) (decimal (suc n)))

unfoldable pub six_digits : ℕ → Bytes
six_digits n =
    padded 100000 n (padded 10000 n (padded 1000 n (padded 100 n (padded 10 n (decimal n)))))

-- The time is in nanoseconds of the epoch.
unfoldable pub format_timestamp : SystemTime → Bytes
unfolding civil_from_days two_digits four_signed six_digits
format_timestamp time =
    let seconds = time / 1000000000 in
    let micros = time % 1000000000 / 1000 in
    let seconds_of_day = seconds % 86400 in
    let (year, (month, day)) = civil_from_days (pos (seconds / 86400)) in
    b'['
    ∷ (four_signed year
        ++ b'-'
          ∷ (two_digits month
              ++ b'-'
                ∷ (two_digits day
                    ++ b'T'
                      ∷ (two_digits (seconds_of_day / 3600)
                          ++ b':'
                            ∷ (two_digits (seconds_of_day % 3600 / 60)
                                ++ b':'
                                  ∷ (two_digits (seconds_of_day % 60)
                                      ++ b'.' ∷ (six_digits micros ++ bytes "Z]")))))))

-- The line of an event at a time.
unfoldable pub format_log_line : SystemTime → ℕ → Bytes → Bytes
unfolding format_timestamp
format_log_line now id body = format_timestamp now ++ (bytes " id=" ++ (decimal id ++ b' ' ∷ body))
