-- ===== src/Time/Tests.antt =====
-- Dates and texts of instants.
use shimpz_admin.Prelude.{◌+◌, ◌≤◌, ◌<◌, ◌≡◌, refl, arith, false, [], ◌∷◌, none, some, Text}
use shimpz_admin.Prelude.Int.{pos, negsuc, ◌+ℤ◌, ◌-ℤ◌}
use shimpz_admin.Time.Calendar.{
  ymd_to_ord, ord_to_ymd, days_before_year, days_before_month, days_in_month, add_months, find_year,
  find_month, weekday, iso_to_ymd,
}
use shimpz_admin.Time.Calendar.Ordinals.{IsDate, ymd_to_ord-ord_to_ymd}
use shimpz_admin.Time.Calendar.Weeks.{iso_to_ymd-IsDate}
use shimpz_admin.Time.Instants.{
  civil_from_days, days_from_civil, date_of_shifted, date_of_era, days_of_year, days_of_era,
}
use shimpz_admin.Time.Instants.Civil.{epoch, as_integers, civil_from_days-ord}
use shimpz_admin.Time.Instants.Days.{days_from_civil-ord}
use shimpz_admin.Time.Texts.{utc, parse_utc, write_digits, pad, number}
use shimpz_admin.Time.Texts.Reading.{parse_utc-utc}
use shimpz_admin.Time.Isoformat.{
  Clock, digits, skip_digits, separator, parse_date, clock_loop, find_zone, parse_time, parse,
}
use shimpz_admin.Time.Isoformat.Checked.{
  DateTime, offset_of, inside_day, next_midnight, in_ranges, made_of, fromisoformat,
}
use shimpz_admin.Time.Isoformat.Dates.{IsDateTime, fromisoformat-IsDateTime}
use shimpz_admin.Time.Isoformat.Written.{datetime_of, fromisoformat-utc}

-- "2000-02-29T00:00:00Z".
abbrev leap_day_text : Text
leap_day_text =
    50 ∷ 48 ∷ 48 ∷ 48 ∷ 45 ∷ 48 ∷ 50 ∷ 45 ∷ 50 ∷ 57 ∷ 84 ∷ 48 ∷ 48 ∷ 58 ∷ 48 ∷ 48 ∷ 58 ∷ 48 ∷ 48
    ∷ 90 ∷ []

utc_leap_day : utc (pos 951782400) ≡ leap_day_text
unfolding utc civil_from_days date_of_shifted date_of_era write_digits pad ◌+ℤ◌ ◌-ℤ◌
utc_leap_day = refl

parse_utc_leap_day : parse_utc leap_day_text ≡ some (pos 951782400)
unfolding parse_utc number days_from_civil days_of_year days_of_era ◌+ℤ◌ ◌-ℤ◌
parse_utc_leap_day = refl

-- "1969-12-31T23:59:59Z".
utc_before_epoch :
    utc (negsuc 0)
    ≡ 49 ∷ 57 ∷ 54 ∷ 57 ∷ 45 ∷ 49 ∷ 50 ∷ 45 ∷ 51 ∷ 49 ∷ 84 ∷ 50 ∷ 51 ∷ 58 ∷ 53 ∷ 57 ∷ 58 ∷ 53 ∷ 57
      ∷ 90 ∷ []
unfolding utc civil_from_days date_of_shifted date_of_era write_digits pad ◌+ℤ◌ ◌-ℤ◌
utc_before_epoch = refl

-- "2000-02-30T00:00:00Z".
parse_utc_refused :
    parse_utc (
      50 ∷ 48 ∷ 48 ∷ 48 ∷ 45 ∷ 48 ∷ 50 ∷ 45 ∷ 51 ∷ 48 ∷ 84 ∷ 48 ∷ 48 ∷ 58 ∷ 48 ∷ 48 ∷ 58 ∷ 48 ∷ 48
      ∷ 90 ∷ [])
    ≡ none
unfolding parse_utc number
parse_utc_refused = refl

abbrev leap_day : DateTime
leap_day = record {
  year = 2000;
  month = 2;
  day = 29;
  hour = 0;
  minute = 0;
  second = 0;
  microsecond = 0;
  offset = some (pos 0);
}

-- "2020-W53-5T24" is the midnight after 2021-01-01.
week_text :
    fromisoformat (50 ∷ 48 ∷ 50 ∷ 48 ∷ 45 ∷ 87 ∷ 53 ∷ 51 ∷ 45 ∷ 53 ∷ 84 ∷ 50 ∷ 52 ∷ [])
    ≡ some (record leap_day { year = 2021; month = 1; day = 2; offset = none })
unfolding fromisoformat made_of parse separator parse_date parse_time clock_loop find_zone digits
    skip_digits iso_to_ymd weekday ord_to_ymd ymd_to_ord days_before_year days_before_month
    add_months days_in_month find_year find_month next_midnight in_ranges
week_text = refl

-- "2020-01-00T24:00:00": day 0 has no hour 24, and yet is read as the day after.
day_zero :
    fromisoformat (
      50 ∷ 48 ∷ 50 ∷ 48 ∷ 45 ∷ 48 ∷ 49 ∷ 45 ∷ 48 ∷ 48 ∷ 84 ∷ 50 ∷ 52 ∷ 58 ∷ 48 ∷ 48 ∷ 58 ∷ 48 ∷ 48
      ∷ [])
    ≡ some (record leap_day { year = 2020; month = 1; day = 1; offset = none })
unfolding fromisoformat made_of parse separator parse_date parse_time clock_loop find_zone digits
    skip_digits days_in_month next_midnight in_ranges
day_zero = refl

leap_day_IsDate : IsDate (2000, 2, 29)
unfolding days_in_month
leap_day_IsDate = record {
  year_in = omega arith;
  month_in = (omega arith, omega arith);
  day_in = (omega arith, omega arith);
}

ymd_to_ord-ord_to_ymd_example :
    IsDate (ord_to_ymd 730179)
    × (ymd_to_ord (ord_to_ymd 730179).0 (ord_to_ymd 730179).1 (ord_to_ymd 730179).2 ≡ 730179)
ymd_to_ord-ord_to_ymd_example = ymd_to_ord-ord_to_ymd 730179 (omega arith)

iso_to_ymd-IsDate_example :
    IsDate (2021, 1, 1)
    × (weekday 2021 1 1 ≡ 4)
    × (days_before_year 2020 + 5 < ymd_to_ord 2021 1 1 + 4)
    × (ymd_to_ord 2021 1 1 + 4 ≤ days_before_year 2021 + 5)
unfolding iso_to_ymd weekday ord_to_ymd ymd_to_ord days_before_year days_before_month add_months
    days_in_month find_year find_month
iso_to_ymd-IsDate_example = iso_to_ymd-IsDate 2020 53 5 (2021, 1, 1) refl

civil_from_days-ord_example :
    civil_from_days (pos 730179 -ℤ pos epoch) ≡ as_integers (ord_to_ymd 730179)
civil_from_days-ord_example = civil_from_days-ord 730179 (omega arith)

days_from_civil-ord_example :
    days_from_civil (pos 2000) (pos 2) (pos 29) ≡ pos (ymd_to_ord 2000 2 29) -ℤ pos epoch
days_from_civil-ord_example = days_from_civil-ord 2000 2 29 leap_day_IsDate

parse_utc-utc_example : parse_utc (utc (pos 951782400)) ≡ some (pos 951782400)
parse_utc-utc_example = parse_utc-utc 951782400 (omega arith)

fromisoformat-IsDateTime_example : IsDateTime leap_day
unfolding fromisoformat made_of parse separator parse_date parse_time clock_loop find_zone digits
    skip_digits days_in_month next_midnight in_ranges offset_of inside_day
fromisoformat-IsDateTime_example = fromisoformat-IsDateTime leap_day_text leap_day refl

abbrev hour_24 : Clock
hour_24 = record { hour = 24; minute = 0; second = 0; microsecond = 0; trailing = false }

fromisoformat-utc_example :
    fromisoformat (utc (pos 951782400)) ≡ some (datetime_of (ord_to_ymd 730179) 0)
fromisoformat-utc_example = fromisoformat-utc 951782400 (omega arith)
