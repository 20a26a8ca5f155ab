-- ===== src/Time/Calendar.antt =====
-- protocol/team/http/src/python/datetime.rs: the proleptic Gregorian calendar. Years are 1 or more, and
-- so are ordinals, so none of the code's 32-bit numbers is negative.
pub mod Years
pub mod Months
pub mod Ordinals
pub mod Weeks
use shimpz_admin.Prelude.{
  ℕ, zero, suc, ◌+◌, ◌-◌, ◌*◌, ◌/◌, ◌%◌, Bool, true, false, not, ◌&&◌, ◌||◌, Option, none, some,
  ltb, leb, ◌==◌, if◌then◌else◌,
}

abbrev pub days_in_400_years : ℕ
days_in_400_years = 146097

abbrev pub is_leap : ℕ → Bool
is_leap year = year % 4 == 0 && (not (year % 100 == 0) || year % 400 == 0)

unfoldable pub days_in_month : ℕ → ℕ → ℕ
days_in_month year month =
    if month == 2
    then (if is_leap year then 29 else 28)
    else if month == 4 || month == 6 || month == 9 || month == 11
    then 30
    else 31

unfoldable pub days_before_year : ℕ → ℕ
days_before_year year =
    let previous = year - 1 in previous * 365 + previous / 4 - previous / 100 + previous / 400

-- The loop of `days_before_month`, with the rounds left.
unfoldable pub add_months : ℕ → ℕ → ℕ → ℕ → ℕ
add_months zero year current days = days
add_months (suc left) year current days =
    add_months left year (current + 1) (days + days_in_month year current)

unfoldable pub days_before_month : ℕ → ℕ → ℕ
days_before_month year month = add_months (month - 1) year 1 0

unfoldable pub ymd_to_ord : ℕ → ℕ → ℕ → ℕ
ymd_to_ord year month day = days_before_year year + days_before_month year month + day

abbrev pub days_in_year : ℕ → ℕ
days_in_year year = if is_leap year then 366 else 365

-- The loop over the years, and the loop over the months, on fuel.
unfoldable pub find_year : ℕ → ℕ → ℕ → ℕ × ℕ
find_year zero year rest = (year, rest)
find_year (suc fuel) year rest = elim (leb (days_in_year year) rest) [
  | true ↦ find_year fuel (year + 1) (rest - days_in_year year)
  | false ↦ (year, rest)
]

unfoldable pub find_month : ℕ → ℕ → ℕ → ℕ → ℕ × ℕ
find_month zero year month rest = (month, rest)
find_month (suc fuel) year month rest = elim (leb (days_in_month year month) rest) [
  | true ↦ find_month fuel year (month + 1) (rest - days_in_month year month)
  | false ↦ (month, rest)
]

-- Within 400 years of its start, and within twelve months.
abbrev pub year_fuel : ℕ
year_fuel = 400

abbrev pub month_fuel : ℕ
month_fuel = 12

unfoldable pub ord_to_ymd : ℕ → ℕ × ℕ × ℕ
ord_to_ymd ordinal =
    let offset = ordinal - 1 in
    let (year, rest) =
      find_year year_fuel (offset / days_in_400_years * 400 + 1) (offset % days_in_400_years) in
    let (month, rest') = find_month month_fuel year 1 rest in (year, month, rest' + 1)

-- Monday is 0.
unfoldable pub weekday : ℕ → ℕ → ℕ → ℕ
weekday year month day = (ymd_to_ord year month day + 6) % 7

abbrev pub min_year : ℕ
min_year = 1

abbrev pub max_year : ℕ
max_year = 9999

-- Has the year a week of this number?
abbrev pub has_week : ℕ → ℕ → Bool
has_week year week =
    let first = weekday year 1 1 in
    leb 1 week && ltb week 53 || week == 53 && (first == 3 || first == 2 && is_leap year)

abbrev pub week1_monday : ℕ → ℕ
week1_monday year =
    let first_day = ymd_to_ord year 1 1 in
    let first_weekday = (first_day + 6) % 7 in
    if ltb 3 first_weekday then first_day - first_weekday + 7 else first_day - first_weekday

unfoldable pub iso_to_ymd : ℕ → ℕ → ℕ → Option (ℕ × ℕ × ℕ)
iso_to_ymd year week day =
    if leb min_year year && leb year max_year && has_week year week && leb 1 day && leb day 7
    then some (ord_to_ymd (week1_monday year + (week - 1) * 7 + day - 1))
    else none
