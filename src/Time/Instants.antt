-- ===== src/Time/Instants.antt =====
-- backend/src/time/format/mod.rs: UTC instants. The code's 64-bit numbers are integers here: no date
-- that a clock shows is near their ends. `/` drops the fraction, as it does there.
pub mod Eras
pub mod Civil
pub mod Days
use shimpz_admin.Prelude.{
  ℕ, zero, suc, ◌+◌, ◌-◌, ◌*◌, ◌/◌, ◌%◌, Bool, true, false, if◌then◌else◌, ltb,
}
use shimpz_admin.Prelude.Int.{ℤ, pos, negsuc, ◌+ℤ◌, ◌-ℤ◌, scale, quot, is_neg, ltb_ℤ}

abbrev pub day_of_year : ℤ → ℤ → ℤ
day_of_year month day =
    let month_index = if ltb_ℤ (pos 2) month then month -ℤ pos 3 else month +ℤ pos 9 in
    quot (scale 153 month_index +ℤ pos 2) 5 +ℤ day -ℤ pos 1

-- The days of a year that starts in March, and of a day of it.
unfoldable pub days_of_era : ℤ → ℤ → ℤ → ℤ
days_of_era era year_of_era day =
    let day_of_era = scale 365 year_of_era +ℤ quot year_of_era 4 -ℤ quot year_of_era 100 +ℤ day in
    scale 146097 era +ℤ day_of_era -ℤ pos 719468

unfoldable pub days_of_year : ℤ → ℤ → ℤ
days_of_year year day =
    let era = quot (if is_neg year then year -ℤ pos 399 else year) 400 in
    days_of_era era (year -ℤ scale 400 era) day

unfoldable pub days_from_civil : ℤ → ℤ → ℤ → ℤ
days_from_civil year month day =
    days_of_year (if ltb_ℤ (pos 2) month then year else year -ℤ pos 1) (day_of_year month day)

-- The date of a day of an era, from the year of the era and the day of that year.
abbrev pub date_of : ℤ → ℤ → ℤ → ℤ × ℤ × ℤ
date_of era year_of_era day_of_year' =
    let month_index = quot (scale 5 day_of_year' +ℤ pos 2) 153 in
    let day = day_of_year' -ℤ quot (scale 153 month_index +ℤ pos 2) 5 +ℤ pos 1 in
    let month = if ltb_ℤ month_index (pos 10) then month_index +ℤ pos 3 else month_index -ℤ pos 9 in
    (year_of_era +ℤ scale 400 era +ℤ (if ltb_ℤ (pos 2) month then pos 0 else pos 1), month, day)

abbrev pub year_in_era : ℤ → ℤ
year_in_era day_of_era =
    quot (day_of_era -ℤ quot day_of_era 1460 +ℤ quot day_of_era 36524 -ℤ quot day_of_era 146096) 365

unfoldable pub date_of_era : ℤ → ℤ → ℤ × ℤ × ℤ
date_of_era era day_of_era =
    let year_of_era = year_in_era day_of_era in
    date_of era year_of_era
      (day_of_era -ℤ (scale 365 year_of_era +ℤ quot year_of_era 4 -ℤ quot year_of_era 100))

unfoldable pub date_of_shifted : ℤ → ℤ × ℤ × ℤ
date_of_shifted days =
    let era = quot (if is_neg days then days -ℤ pos 146096 else days) 146097 in
    date_of_era era (days -ℤ scale 146097 era)

unfoldable pub civil_from_days : ℤ → ℤ × ℤ × ℤ
civil_from_days days = date_of_shifted (days +ℤ pos 719468)
