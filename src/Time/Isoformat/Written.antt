-- ===== src/Time/Isoformat/Written.antt =====
-- The texts that the backend writes for its instants, as `fromisoformat` reads them.
use shimpz_admin.Prelude.{
  ℕ, suc, ◌+◌, ◌/◌, ◌%◌, ◌<◌, ◌≡◌, refl, ap, ◌∙◌, true, false, some, arith, Text, all, keep-all,
}
use shimpz_admin.Prelude.Int.{pos}
use shimpz_admin.Time.Calendar.{ord_to_ymd}
use shimpz_admin.Time.Calendar.Ordinals.{IsDate}
use shimpz_admin.Time.Instants.Civil.{epoch}
use shimpz_admin.Time.Texts.{utc, day_seconds}
use shimpz_admin.Time.Texts.Digits.{digit}
use shimpz_admin.Time.Texts.Reading.{texts, utc-texts}
use shimpz_admin.Time.Isoformat.{
  Clock, separator, digits, at, parse_date, clock_loop, parse_clock, find_zone, is_zone,
  starts_character, parse_time, parse,
}
use shimpz_admin.Time.Isoformat.Checked.{
  DateTime, made_of, offset_of, inside_day, next_midnight, in_ranges, fromisoformat,
}

split-texts : (y m d h i s : ℕ) → separator (texts y m d h i s) 20 ≡ some 10
unfolding separator
split-texts y m d h i s = ground arith

date-texts :
    (y m d h i s : ℕ)
    → y < 10000
    → m < 100
    → d < 100
    → parse_date (texts y m d h i s) 10 ≡ some (y, m, d)
unfolding parse_date digits
date-texts y m d h i s hy hm hd = ground arith

skip_zone :
    (left : ℕ) (text : Text) (index : ℕ)
    → is_zone (at text index) ≡ false
    → find_zone (suc left) text index ≡ find_zone left text (index + 1)
unfolding find_zone
skip_zone left text index h = ground (arith, h)

at_zone :
    (left : ℕ) (text : Text) (index : ℕ)
    → is_zone (at text index) ≡ true
    → find_zone (suc left) text index ≡ index
unfolding find_zone
at_zone left text index h = ground (arith, h)

not_zone : (n : ℕ) → is_zone (digit n) ≡ false
not_zone n = ground arith

zone-texts : (y m d h i s : ℕ) → find_zone 9 (texts y m d h i s) 11 ≡ 19
zone-texts y m d h i s =
    let t = texts y m d h i s in
    skip_zone 8 t 11 (not_zone (h / 10))
    ∙ skip_zone 7 t 12 (not_zone h)
    ∙ skip_zone 6 t 13 refl
    ∙ skip_zone 5 t 14 (not_zone (i / 10))
    ∙ skip_zone 4 t 15 (not_zone i)
    ∙ skip_zone 3 t 16 refl
    ∙ skip_zone 2 t 17 (not_zone (s / 10))
    ∙ skip_zone 1 t 18 (not_zone s)
    ∙ at_zone 0 t 19 refl

abbrev clock_of : ℕ → ℕ → ℕ → Clock
clock_of h i s = record { hour = h; minute = i; second = s; microsecond = 0; trailing = true }

field-texts :
    (y m d h i s : ℕ)
    → h < 100
    → i < 100
    → s < 100
    → (digits (texts y m d h i s) 11 2 0 ≡ some h)
      × (digits (texts y m d h i s) 14 2 0 ≡ some i)
      × (digits (texts y m d h i s) 17 2 0 ≡ some s)
unfolding digits
field-texts y m d h i s hh hi hs = (ground arith, ground arith, ground arith)

clock-texts :
    (y m d h i s : ℕ)
    → h < 100
    → i < 100
    → s < 100
    → parse_clock (texts y m d h i s) 11 19 ≡ some (clock_of h i s)
unfolding clock_loop
clock-texts y m d h i s hh hi hs =
    let (a, b, c) = field-texts y m d h i s hh hi hs in rw (a, b, c) refl

time-texts :
    (y m d h i s : ℕ)
    → h < 100
    → i < 100
    → s < 100
    → parse_time (texts y m d h i s) 11 20 ≡ some (clock_of h i s, some (pos 0, pos 0))
unfolding parse_time
time-texts y m d h i s hh hi hs = rw (zone-texts y m d h i s, clock-texts y m d h i s hh hi hs) refl

starts_character-digit : (n : ℕ) → starts_character (digit n) ≡ true
starts_character-digit n = ground arith

all_start : (y m d h i s : ℕ) → all starts_character (texts y m d h i s) ≡ true
all_start y m d h i s =
    let e = starts_character-digit in
    rw
      (
        e (y / 1000),
        e (y / 100),
        e (y / 10),
        e y,
        e (m / 10),
        e m,
        e (d / 10),
        e d,
        e (h / 10),
        e h,
        e (i / 10),
        e i,
        e (s / 10),
        e s,
      )
      refl

parse-texts :
    (y m d h i s : ℕ)
    → y < 10000
    → m < 100
    → d < 100
    → h < 100
    → i < 100
    → s < 100
    → parse (texts y m d h i s) ≡ some ((y, m, d), (clock_of h i s, some (pos 0, pos 0)))
unfolding parse
parse-texts y m d h i s hy hm hd hh hi hs =
    rw
      (
        keep-all starts_character (texts y m d h i s) (all_start y m d h i s),
        split-texts y m d h i s,
        date-texts y m d h i s hy hm hd,
        time-texts y m d h i s hh hi hs,
      )
      refl

abbrev pub datetime_of : ℕ × ℕ × ℕ → ℕ → DateTime
datetime_of (year, month, day) seconds = record {
  year = year;
  month = month;
  day = day;
  hour = seconds / 3600;
  minute = seconds % 3600 / 60;
  second = seconds % 60;
  microsecond = 0;
  offset = some (pos 0);
}

made_of-utc :
    (y m d r : ℕ)
    → IsDate (y, m, d)
    → y < 10000
    → r < day_seconds
    → made_of
        (some ((y, m, d), (clock_of (r / 3600) (r % 3600 / 60) (r % 60), some (pos 0, pos 0))))
      ≡ some (datetime_of (y, m, d) r)
unfolding made_of offset_of inside_day next_midnight in_ranges
made_of-utc y m d r v hy hr = ground (arith, v.year_in, v.month_in, v.day_in)

-- An instant from 1970-01-01T00:00:00Z to 9999-12-31T23:59:59Z, written as a text by `utc`, is read by
-- `fromisoformat` as the calendar's date of its day, the time of that day and an offset of zero.
pub fromisoformat-utc :
    (n : ℕ)
    → n < 253402300800
    → fromisoformat (utc (pos n))
      ≡ some (datetime_of (ord_to_ymd (n / day_seconds + epoch)) (n % day_seconds))
unfolding fromisoformat
fromisoformat-utc n h =
    let r = n % day_seconds in
    let (w, v, hy, hd, e) = utc-texts n h in
    ap fromisoformat w
    ∙ ap made_of (
        parse-texts _ _ _ (r / 3600) (r % 3600 / 60) (r % 60) hy (omega (arith, v.month_in)) hd
          (omega arith) (omega arith) (omega arith))
    ∙ made_of-utc _ _ _ r v hy (omega arith)
