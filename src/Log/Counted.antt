-- ===== src/Log/Counted.antt =====
-- src/log.rs: the days since the epoch, without the sizes of the machine's integers.
use gatefs.Log.{day_of_year, month_day, year_of_era}
use gatefs.Log.Calendar.{
  date_after, day_in_year, days_in_month, is_leap, last_day, new_year, next_day, same_year,
  year_date, year_length, year_length-era,
}
use gatefs.Base.{
  Bool-cases, ap, arith, if◌then◌else◌, inl, inr, leb, ltb, refl, subst, suc, sym, zero, ℕ, ◌*◌,
  ◌+◌, ◌-◌, ◌/◌, ◌<◌, ◌∙◌, ◌≡◌, ◌≤◌,
}

-- The date of a day of an era, and of a day since the epoch.
unfoldable pub counted_in_era : ℕ → ℕ → ℕ × (ℕ × ℕ)
unfolding year_of_era day_of_year month_day
counted_in_era era doe =
    let yoe = year_of_era doe in
    let date = month_day (day_of_year doe yoe) in
    (yoe + era * 400 + (if leb date.0 2 then 1 else 0), date)

unfoldable pub counted : ℕ → ℕ × (ℕ × ℕ)
unfolding counted_in_era
counted days =
    let z = days + 719468 in let era = z / 146097 in counted_in_era era (z - era * 146097)

dated :
    (era doe : ℕ)
    → counted_in_era era doe
      ≡ year_date (year_of_era doe + era * 400) (day_of_year doe (year_of_era doe))
unfolding counted_in_era year_date
dated era doe = refl

-- Within an era the date after is the day after.
counted_in_era-next_day :
    (era doe : ℕ)
    → doe + 1 < 146097
    → counted_in_era era (doe + 1) ≡ next_day (counted_in_era era doe)
counted_in_era-next_day era doe h =
    dated era (doe + 1)
    ∙ elim (Bool-cases (ltb (doy + 1) (year_length (year_of_era doe)))) [
      | inl b ↦
          let same = same_year doe h (ground (arith, b)) in
          ap (λ y. year_date (y + era * 400) (day_of_year (doe + 1) y)) same.0
          ∙ ap (year_date year) same.1
          ∙ day_in_year year doy (subst (λ n. doy + 1 < n) (sym length_is) (ground (arith, b)))
      | inr b ↦
          let (next, (first, last)) = new_year doe h (ground (arith, b)) in
          ap (λ y. year_date (y + era * 400) (day_of_year (doe + 1) y)) next
          ∙ ap (year_date (year_of_era doe + 1 + era * 400)) first
          ∙ ap (λ y. year_date y 0) (later (year_of_era doe) (era * 400))
          ∙ last_day year doy (last ∙ sym length_is)
    ]
    ∙ ap next_day (sym (dated era doe))
  where
    year : ℕ
    year = year_of_era doe + era * 400

    doy : ℕ
    doy = day_of_year doe (year_of_era doe)

    length_is : year_length year ≡ year_length (year_of_era doe)
    length_is = year_length-era (year_of_era doe) era

    later : (m n : ℕ) → m + 1 + n ≡ m + n + 1
    later m n = omega arith

-- The last day of an era.
last_of_era : (era : ℕ) → counted_in_era (era + 1) 0 ≡ next_day (counted_in_era era 146096)
unfolding counted_in_era next_day days_in_month is_leap year_of_era day_of_year month_day
last_of_era era = ground arith

same_era :
    (z : ℕ)
    → z - z / 146097 * 146097 + 1 < 146097
    → ((z + 1) / 146097 ≡ z / 146097) × (z + 1 - z / 146097 * 146097 ≡ z - z / 146097 * 146097 + 1)
same_era z h = (omega arith, omega arith)

next_era :
    (z : ℕ)
    → 146097 ≤ z - z / 146097 * 146097 + 1
    → ((z + 1) / 146097 ≡ z / 146097 + 1)
      × ((z + 1 - (z / 146097 + 1) * 146097 ≡ 0) × (z - z / 146097 * 146097 ≡ 146096))
next_era z h = (omega arith, (omega arith, omega arith))

counted-next_day : (days : ℕ) → counted (suc days) ≡ next_day (counted days)
unfolding counted
counted-next_day days = ap in_era (shifted days) ∙ elim (Bool-cases (ltb (doe + 1) 146097)) [
  | inl b ↦
      let same = same_era z (ground (arith, b)) in
      ap (λ e. counted_in_era e (z + 1 - e * 146097)) same.0
      ∙ ap (counted_in_era (z / 146097)) same.1
      ∙ counted_in_era-next_day (z / 146097) doe (ground (arith, b))
  | inr b ↦
      let (next, (first, last)) = next_era z (ground (arith, b)) in
      ap (λ e. counted_in_era e (z + 1 - e * 146097)) next
      ∙ ap (counted_in_era (z / 146097 + 1)) first
      ∙ last_of_era (z / 146097)
      ∙ ap (λ d. next_day (counted_in_era (z / 146097) d)) (sym last)
]
  where
    z : ℕ
    z = days + 719468

    doe : ℕ
    doe = z - z / 146097 * 146097

    in_era : ℕ → ℕ × (ℕ × ℕ)
    in_era y = counted_in_era (y / 146097) (y - y / 146097 * 146097)

    shifted : (d : ℕ) → suc d + 719468 ≡ d + 719468 + 1
    shifted d = omega arith

pub counted-date_after : (days : ℕ) → counted days ≡ date_after days
unfolding date_after
counted-date_after zero = unfold counted counted_in_era year_of_era day_of_year month_day in refl
counted-date_after (suc days) = counted-next_day days ∙ ap next_day (counted-date_after days)

-- A year is 365 days at least.
pub counted-year : (days : ℕ) → 365 * (counted days).0 ≤ days + 719833
unfolding counted counted_in_era year_of_era
counted-year days = ground arith
