-- ===== src/Time/Instants/Eras.antt =====
-- The years and days of an era of 400 years that starts in March.
use shimpz_admin.Prelude.{
  ℕ, zero, suc, ◌+◌, ◌-◌, ◌*◌, ◌/◌, ◌≤◌, ◌<◌, ◌≡◌, sym, subst, dec_lt, arith, if◌then◌else◌,
}
use shimpz_admin.Time.Calendar.{
  is_leap, days_in_month, days_before_year, days_before_month, add_months, ymd_to_ord,
}
use shimpz_admin.Time.Calendar.Ordinals.{IsDate, january}
use shimpz_admin.Time.Calendar.Months.{days_before_month-suc}

abbrev pub days_before : ℕ → ℕ
days_before y = 365 * y + y / 4 - y / 100

abbrev pub year_of : ℕ → ℕ
year_of doe = (doe - doe / 1460 + doe / 36524 - doe / 146096) / 365

pub year_of_lem :
    (doe : ℕ)
    → doe < 146097
    → (year_of doe < 400)
      × (days_before (year_of doe) ≤ doe)
      × (doe ≤ days_before (year_of doe) + 365)
year_of_lem doe h = omega arith

abbrev pub leap_day : ℕ → ℕ
leap_day y = if is_leap y then 1 else 0

march_length :
    (y k : ℕ) → k ≤ 8 → days_in_month y (k + 3) + (153 * k + 2) / 5 ≡ (153 * (k + 1) + 2) / 5
unfolding days_in_month
march_length y k h = ground arith

-- The days before a month from March on.
pub from_march :
    (y k : ℕ) → k ≤ 9 → days_before_month y (k + 3) ≡ (153 * k + 2) / 5 + 59 + leap_day y
unfolding days_before_month add_months days_in_month
from_march y zero h = ground arith
from_march y (suc k) h = ground (
  arith,
  from_march y k (omega (arith, h)),
  days_before_month-suc y (k + 3) (omega arith),
  march_length y k,
)

pub february : (y : ℕ) → days_before_month y 2 ≡ 31
unfolding days_before_month add_months days_in_month
february y = ground arith

abbrev pub month_index : ℕ → ℕ
month_index doy = (5 * doy + 2) / 153

abbrev pub day_in_month : ℕ → ℕ
day_in_month doy = doy - (153 * month_index doy + 2) / 5 + 1

-- The days of a month, counted from March.
month_length :
    (y k d : ℕ)
    → k ≤ 9
    → d ≤ (153 * (k + 1) + 2) / 5 - (153 * k + 2) / 5
    → d ≤ days_in_month y (k + 3)
unfolding days_in_month
month_length y k d h l = ground arith

-- A day of the calendar, with the days from the start of the first era.
abbrev pub Placed : ℕ → ℕ → ℕ → ℕ → Type 0
Placed y m d n = IsDate (y, m, d) × (ymd_to_ord y m d + 305 ≡ n)

-- A day of the part of a year from March on.
pub late :
    (e yoe doy : ℕ)
    → yoe < 400
    → month_index doy < 10
    → 1 ≤ yoe + 400 * e
    → Placed
        (yoe + 400 * e)
        (month_index doy + 3)
        (day_in_month doy)
        (146097 * e + days_before yoe + doy)
unfolding ymd_to_ord days_before_year
late e yoe doy b h p = (
  record {
    year_in = p;
    month_in = (omega arith, omega (arith, h));
    day_in = (
      omega arith,
      month_length (yoe + 400 * e) (month_index doy) (day_in_month doy) (omega (arith, h))
          (omega arith),
    );
  },
  ground (arith, from_march (yoe + 400 * e) (month_index doy) (omega (arith, h))),
)

-- The last day of a year that has 366 days is that before a leap day's anniversary.
pub year_of_leap :
    (doe e : ℕ)
    → doe < 146097
    → doe ≤ days_before (year_of doe) + 364 + leap_day (year_of doe + 400 * e + 1)
year_of_leap doe e h = ground arith

pub leap_day-le : (y : ℕ) → leap_day y ≤ 1
leap_day-le y = ground arith

Placed-start : (y m m' d n : ℕ) → m ≡ m' → Placed y m' d n → Placed y m d n
Placed-start y m m' d n e h = subst (λ k. Placed y k d n) (sym e) h

in_january :
    (e yoe d doy : ℕ)
    → yoe < 400
    → doy + 1 ≡ d + 306
    → (1 ≤ d) × (d ≤ 31)
    → Placed (yoe + 400 * e + 1) 1 d (146097 * e + days_before yoe + doy)
unfolding ymd_to_ord days_before_year days_in_month
in_january e yoe d doy b h l = (
  record { year_in = omega arith; month_in = (omega arith, omega arith); day_in = l },
  ground (arith, january (yoe + 400 * e + 1)),
)

in_february :
    (e yoe d doy : ℕ)
    → yoe < 400
    → doy + 1 ≡ d + 337
    → doy ≤ 364 + leap_day (yoe + 400 * e + 1)
    → 1 ≤ d
    → Placed (yoe + 400 * e + 1) 2 d (146097 * e + days_before yoe + doy)
unfolding ymd_to_ord days_before_year days_in_month
in_february e yoe d doy b h l p = (
  record {
    year_in = omega arith;
    month_in = (omega arith, omega arith);
    day_in = (p, ground (arith, h, l));
  },
  ground (arith, february (yoe + 400 * e + 1)),
)

-- A day of January or February.
pub early :
    (e yoe doy : ℕ)
    → yoe < 400
    → 10 ≤ month_index doy
    → doy ≤ 364 + leap_day (yoe + 400 * e + 1)
    → Placed
        (yoe + 400 * e + 1)
        (month_index doy - 9)
        (day_in_month doy)
        (146097 * e + days_before yoe + doy)
early e yoe doy b h l = elim (dec_lt doy 337) [
  | yes j ↦
      let m : month_index doy - 9 ≡ 1 = omega (arith, h, j) in
      Placed-start (yoe + 400 * e + 1) (month_index doy - 9) 1 (day_in_month doy) _ m
        (in_january e yoe (day_in_month doy) doy b (omega (arith, h, j)) (omega (arith, h, j)))
  | no f ↦
      let m : month_index doy - 9 ≡ 2 = omega (arith, h, f, l, leap_day-le (yoe + 400 * e + 1)) in
      Placed-start (yoe + 400 * e + 1) (month_index doy - 9) 2 (day_in_month doy) _ m (
        in_february e yoe (day_in_month doy) doy b
          (omega (arith, h, f, l, leap_day-le (yoe + 400 * e + 1))) l
          (omega (arith, h, f, l, leap_day-le (yoe + 400 * e + 1))))
]
