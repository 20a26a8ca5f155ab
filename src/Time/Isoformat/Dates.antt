-- ===== src/Time/Isoformat/Dates.antt =====
-- What an accepted datetime is.
use shimpz_admin.Prelude.{
  ℕ, ◌+◌, ◌≤◌, ◌<◌, ◌≡◌, sym, ap, ◌∙◌, false, Option, some, none, arith, Text, ltb, if◌then◌else◌,
  Bool-cases, inl, inr,
}
use shimpz_admin.Prelude.Int.{ℤ, pos_part, neg_part}
use shimpz_admin.Time.Calendar.{days_in_month, ymd_to_ord, ord_to_ymd}
use shimpz_admin.Time.Calendar.Years.{days_before_year-suc}
use shimpz_admin.Time.Calendar.Months.{days_before_month-suc, twelve_months}
use shimpz_admin.Time.Calendar.Ordinals.{IsDate, january, ord_to_ymd-ymd_to_ord}
use shimpz_admin.Time.Isoformat.{Clock, Time, parse}
use shimpz_admin.Time.Isoformat.Checked.{
  DateTime, day_microseconds, inside_day, outside_day, opt_offset, next_midnight, in_ranges,
  in_range, made_of, fromisoformat,
}

-- What Python's `datetime` holds.
pub record IsDateTime (d : DateTime) : Type 0 where
  pub date_in : IsDate (d.year, d.month, d.day)
  pub year_in : d.year ≤ 9999
  pub time_in : (d.hour ≤ 23) × (d.minute ≤ 59) × (d.second ≤ 59) × (d.microsecond ≤ 999999)
  pub offset_in : (o : ℤ) → d.offset ≡ some o → pos_part o + neg_part o < day_microseconds

in_range-IsDateTime :
    (c : Clock) (o : Option ℤ) (r : Option ((ℕ × ℕ × ℕ) × ℕ)) (d : DateTime)
    → outside_day o ≡ false
    → in_range c o r ≡ some d
    → IsDateTime d
unfolding in_ranges inside_day
in_range-IsDateTime c o r d h e = record {
  date_in = record {
    year_in = ground (arith, e);
    month_in = (ground (arith, e), ground (arith, e));
    day_in = (ground (arith, e), ground (arith, e));
  };
  year_in = ground (arith, e);
  time_in = (ground (arith, e), ground (arith, e), ground (arith, e), ground (arith, e));
  offset_in = λ k f. ground (arith, h, e, f);
}

made_of-IsDateTime :
    (p : Option ((ℕ × ℕ × ℕ) × Time)) (d : DateTime) → made_of p ≡ some d → IsDateTime d
unfolding made_of
made_of-IsDateTime none d h = ground arith
made_of-IsDateTime (some ((year, month, day), (c, zone))) d h =
    elim (Bool-cases (outside_day (opt_offset zone))) [
      | inl e ↦ ground (arith, e, h)
      | inr e ↦
          in_range-IsDateTime c (opt_offset zone) (next_midnight year month day c) d e
            (ground (arith, e, h))
    ]

-- Every datetime that a text is read as is a day of the calendar of the years 1 to 9999, a time of a
-- day, and, where it has one, an offset of less than a day.
pub fromisoformat-IsDateTime :
    (text : Text) (d : DateTime) → fromisoformat text ≡ some d → IsDateTime d
unfolding fromisoformat
fromisoformat-IsDateTime text d h = made_of-IsDateTime (parse text) d h

-- The day after a day of the calendar.
abbrev next_day : ℕ → ℕ → ℕ → ℕ × ℕ × ℕ
next_day y m d =
    if ltb d (days_in_month y m)
    then (y, m, d + 1)
    else if ltb m 12
    then (y, m + 1, 1)
    else (y + 1, 1, 1)

-- Every month has at least four weeks.
first_day : (y m : ℕ) → 1 ≤ days_in_month y m
unfolding days_in_month
first_day y m = ground arith

next_day-IsDate : (y m d : ℕ) → IsDate (y, m, d) → IsDate (next_day y m d)
next_day-IsDate y m d v = record {
  year_in = ground (arith, v.year_in);
  month_in = (ground (arith, v.month_in), ground (arith, v.month_in));
  day_in = (
    ground (arith, v.day_in),
    ground (arith, v.day_in, first_day y (m + 1), first_day (y + 1) 1),
  );
}

next_day-ord :
    (y m d : ℕ)
    → IsDate (y, m, d)
    → ymd_to_ord (next_day y m d).0 (next_day y m d).1 (next_day y m d).2 ≡ ymd_to_ord y m d + 1
unfolding ymd_to_ord
next_day-ord y m d v = ground (
  arith,
  v.month_in,
  v.day_in,
  v.year_in,
  days_before_month-suc y m,
  twelve_months y,
  january (y + 1),
  days_before_year-suc y,
)

-- Hour 24 of a day of the calendar, with no minutes, seconds or microseconds, is hour 0 of the date of
-- the next ordinal.
pub next_midnight-ord :
    (y m d : ℕ) (c : Clock)
    → IsDate (y, m, d)
    → c.hour ≡ 24
    → c.minute ≡ 0
    → c.second ≡ 0
    → c.microsecond ≡ 0
    → next_midnight y m d c ≡ some (ord_to_ymd (ymd_to_ord y m d + 1), 0)
unfolding next_midnight
next_midnight-ord y m d c v h i s u =
    let n = next_day y m d in
    let e : ord_to_ymd (ymd_to_ord y m d + 1) ≡ n =
      ap ord_to_ymd (sym (next_day-ord y m d v))
      ∙ ord_to_ymd-ymd_to_ord n.0 n.1 n.2 (next_day-IsDate y m d v) in
    rw e (ground (arith, v.month_in, v.day_in))
