-- ===== src/Time/Instants/Days.antt =====
-- The day count of a civil date is the calendar's ordinal, counted from 1970-01-01.
use shimpz_admin.Prelude.{
  ℕ, ◌+◌, ◌-◌, ◌*◌, ◌/◌, ◌%◌, ◌≤◌, ◌≡◌, refl, ap, ◌∙◌, dec_lt, arith, if◌then◌else◌, ltb,
}
use shimpz_admin.Prelude.Int.{pos, ◌+ℤ◌, ◌-ℤ◌, ltb_ℤ, add-pos, sub-pos}
use shimpz_admin.Time.Calendar.{ymd_to_ord, days_before_year, days_before_month}
use shimpz_admin.Time.Calendar.Ordinals.{
  IsDate, date, january, ymd_to_ord-pos, ord_to_ymd-ymd_to_ord,
}
use shimpz_admin.Time.Instants.{
  days_from_civil, civil_from_days, days_of_era, days_of_year, day_of_year,
}
use shimpz_admin.Time.Instants.Eras.{days_before, from_march, february}
use shimpz_admin.Time.Instants.Civil.{epoch, civil_from_days-ord, as_integers}

-- The days from the start of the first era, of a year from March and a day of it.
abbrev pub count : ℕ → ℕ → ℕ
count y doy = 146097 * (y / 400) + days_before (y % 400) + doy

days_of_era-pos :
    (e y doy : ℕ)
    → days_of_era (pos e) (pos y) (pos doy) ≡ pos (146097 * e + (days_before y + doy)) -ℤ pos 719468
unfolding days_of_era
days_of_era-pos e y doy =
    rw
      (
        add-pos (365 * y) (y / 4),
        sub-pos (365 * y + y / 4) (y / 100) (omega arith),
        add-pos (days_before y) doy,
        add-pos (146097 * e) (days_before y + doy),
      )
      refl

days_of_year-pos : (y doy : ℕ) → days_of_year (pos y) (pos doy) ≡ pos (count y doy) -ℤ pos 719468
unfolding days_of_year
days_of_year-pos y doy =
    let e : y - 400 * (y / 400) ≡ y % 400 = omega arith in
    let s : 146097 * (y / 400) + (days_before (y % 400) + doy) ≡ count y doy = omega arith in
    ap (λ k. days_of_era (pos (y / 400)) k (pos doy))
      (sub-pos y (400 * (y / 400)) (omega arith) ∙ ap pos e)
    ∙ days_of_era-pos (y / 400) (y % 400) doy
    ∙ ap (λ k. pos k -ℤ pos 719468) s

-- The year and the day of the year, from March.
abbrev march_year : ℕ → ℕ → ℕ
march_year y m = if ltb 2 m then y else y - 1

abbrev march_day : ℕ → ℕ → ℕ
march_day m d = (153 * (if ltb 2 m then m - 3 else m + 9) + 2) / 5 + d - 1

day_of_year-pos : (m d : ℕ) → 1 ≤ d → day_of_year (pos m) (pos d) ≡ pos (march_day m d)
unfolding ◌+ℤ◌ ◌-ℤ◌
day_of_year-pos m d h = ground arith

march_year-pos :
    (y m : ℕ)
    → 1 ≤ y
    → (if ltb_ℤ (pos 2) (pos m) then pos y else pos y -ℤ pos 1) ≡ pos (march_year y m)
unfolding ◌-ℤ◌
march_year-pos y m h = ground arith

winter : (y m : ℕ) → 1 ≤ m → m ≤ 2 → days_before_month y m ≡ 31 * (m - 1)
winter y m h l = elim (dec_lt 1 m) [
  | yes s ↦ let e : m ≡ 2 = omega arith in omega (arith, s, ap (days_before_month y) e, february y)
  | no s ↦ let e : m ≡ 1 = omega arith in omega (arith, s, ap (days_before_month y) e, january y)
]

count-march :
    (y m d : ℕ) → IsDate (y, m, d) → count (march_year y m) (march_day m d) ≡ ymd_to_ord y m d + 305
unfolding ymd_to_ord days_before_year
count-march y m d v = elim (dec_lt 2 m) [
  | yes h ↦
      let e : m - 3 + 3 ≡ m = omega (arith, h) in
      ground (
        arith,
        v.year_in,
        v.month_in,
        v.day_in,
        h,
        ap (days_before_month y) e,
        from_march y (m - 3),
      )
  | no h ↦ ground (arith, v.year_in, v.month_in, v.day_in, h, winter y m v.month_in.0)
]

less_305 : (n : ℕ) → pos (n + 305) -ℤ pos 719468 ≡ pos n -ℤ pos epoch
unfolding ◌-ℤ◌
less_305 n = ground arith

-- The day count of a day of the calendar is its ordinal less that of 1970-01-01.
pub days_from_civil-ord :
    (y m d : ℕ)
    → IsDate (y, m, d)
    → days_from_civil (pos y) (pos m) (pos d) ≡ pos (ymd_to_ord y m d) -ℤ pos epoch
unfolding days_from_civil
days_from_civil-ord y m d v =
    ap (λ k. days_of_year k (day_of_year (pos m) (pos d))) (march_year-pos y m v.year_in)
    ∙ ap (days_of_year (pos (march_year y m))) (day_of_year-pos m d v.day_in.0)
    ∙ days_of_year-pos (march_year y m) (march_day m d)
    ∙ ap (λ k. pos k -ℤ pos 719468) (count-march y m d v)
    ∙ less_305 (ymd_to_ord y m d)

-- The day count of a day of the calendar leads back to that day.
pub civil_from_days-days_from_civil :
    (y m d : ℕ)
    → IsDate (y, m, d)
    → civil_from_days (days_from_civil (pos y) (pos m) (pos d)) ≡ as_integers (date y m d)
civil_from_days-days_from_civil y m d v =
    ap civil_from_days (days_from_civil-ord y m d v)
    ∙ civil_from_days-ord (ymd_to_ord y m d) (ymd_to_ord-pos y m d v)
    ∙ ap as_integers (ord_to_ymd-ymd_to_ord y m d v)
