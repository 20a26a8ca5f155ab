-- ===== src/Time/Isoformat/Checked.antt =====
-- protocol/team/http/src/python/datetime.rs: the datetime that `fromisoformat` makes of the parts it read,
-- with its range checks.
use shimpz_admin.Prelude.{
  ℕ, zero, ◌+◌, ◌-◌, Bool, false, not, ◌&&◌, ◌||◌, Option, none, some, Text, ltb, leb, ◌==◌,
  if◌then◌else◌,
}
use shimpz_admin.Prelude.Int.{ℤ, pos, negsuc, ◌+ℤ◌, scale, ltb_ℤ}
use shimpz_admin.Time.Calendar.{days_in_month, min_year, max_year}
use shimpz_admin.Time.Isoformat.{Clock, Time, parse}

pub record DateTime : Type 0 where
  pub year : ℕ
  pub month : ℕ
  pub day : ℕ
  pub hour : ℕ
  pub minute : ℕ
  pub second : ℕ
  pub microsecond : ℕ
  pub offset : Option ℤ

abbrev pub day_microseconds : ℕ
day_microseconds = 86400000000

unfoldable pub offset_of : ℤ × ℤ → ℤ
offset_of (pos zero, microseconds) = pos 0
offset_of (seconds, microseconds) = scale 1000000 seconds +ℤ microseconds

unfoldable pub inside_day : ℤ → Bool
inside_day offset =
    ltb_ℤ (negsuc (day_microseconds - 1)) offset && ltb_ℤ offset (pos day_microseconds)

abbrev pub outside_day : Option ℤ → Bool
outside_day none = false
outside_day (some offset) = not (inside_day offset)

abbrev pub opt_offset : Option (ℤ × ℤ) → Option ℤ
opt_offset none = none
opt_offset (some zone) = some (offset_of zone)

-- The date and the hour.
unfoldable pub next_midnight : ℕ → ℕ → ℕ → Clock → Option ((ℕ × ℕ × ℕ) × ℕ)
next_midnight year month day clock =
    if not (clock.hour == 24) || ltb 12 month || ltb (days_in_month year month) day
    then some ((year, month, day), clock.hour)
    else if not (clock.minute == 0) || not (clock.second == 0) || not (clock.microsecond == 0)
    then none
    else if ltb day (days_in_month year month)
    then some ((year, month, day + 1), 0)
    else if ltb month 12
    then some ((year, month + 1, 1), 0)
    else some ((year + 1, 1, 1), 0)

unfoldable pub in_ranges : (ℕ × ℕ × ℕ) × ℕ → Clock → Bool
in_ranges ((year, month, day), hour) clock =
    leb min_year year
    && leb year max_year
    && leb 1 month
    && leb month 12
    && leb 1 day
    && leb day (days_in_month year month)
    && leb hour 23
    && leb clock.minute 59
    && leb clock.second 59
    && leb clock.microsecond 999999

abbrev pub in_range : Clock → Option ℤ → Option ((ℕ × ℕ × ℕ) × ℕ) → Option DateTime
in_range clock offset none = none
in_range clock offset (some ((year, month, day), hour)) =
    if in_ranges ((year, month, day), hour) clock
    then some (record {
      year = year;
      month = month;
      day = day;
      hour = hour;
      minute = clock.minute;
      second = clock.second;
      microsecond = clock.microsecond;
      offset = offset;
    })
    else none

unfoldable pub made_of : Option ((ℕ × ℕ × ℕ) × Time) → Option DateTime
made_of none = none
made_of (some ((year, month, day), (clock, zone))) =
    if outside_day (opt_offset zone)
    then none
    else in_range clock (opt_offset zone) (next_midnight year month day clock)

unfoldable pub fromisoformat : Text → Option DateTime
fromisoformat text = made_of (parse text)
