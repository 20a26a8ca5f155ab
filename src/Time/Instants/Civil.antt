-- ===== src/Time/Instants/Civil.antt =====
-- The civil date of a day count is the calendar's date of the ordinal, and back.
use shimpz_admin.Prelude.{
  ℕ, ◌+◌, ◌-◌, ◌*◌, ◌/◌, ◌%◌, ◌≤◌, ◌<◌, ◌≡◌, refl, sym, ap, ◌∙◌, dec_lt, arith,
}
use shimpz_admin.Prelude.Int.{ℤ, pos, ◌+ℤ◌, ◌-ℤ◌, scale, quot, add-pos, sub-pos}
use shimpz_admin.Time.Calendar.{ymd_to_ord, ord_to_ymd}
use shimpz_admin.Time.Calendar.Ordinals.{IsDate, date, ord_to_ymd-ymd_to_ord}
use shimpz_admin.Time.Instants.{civil_from_days, date_of, year_in_era, date_of_era, date_of_shifted}
use shimpz_admin.Time.Instants.Eras.{
  days_before, year_of, year_of_lem, year_of_leap, month_index, day_in_month, leap_day, leap_day-le,
  late, early,
}

-- The ordinal of 1970-01-01.
abbrev pub epoch : ℕ
epoch = 719163

abbrev triple : ℕ → ℕ → ℕ → ℤ × ℤ × ℤ
triple y m d = (pos y, pos m, pos d)

year_in_era-pos : (doe : ℕ) → doe < 146097 → year_in_era (pos doe) ≡ pos (year_of doe)
year_in_era-pos doe h =
    rw
      (
        sub-pos doe (doe / 1460) (omega arith),
        add-pos (doe - doe / 1460) (doe / 36524),
        sub-pos (doe - doe / 1460 + doe / 36524) (doe / 146096) (omega arith),
      )
      refl

date_of-late :
    (e y doy : ℕ)
    → month_index doy < 10
    → date_of (pos e) (pos y) (pos doy)
      ≡ triple (y + 400 * e) (month_index doy + 3) (day_in_month doy)
unfolding ◌+ℤ◌ ◌-ℤ◌
date_of-late e y doy h = ground arith

date_of-early :
    (e y doy : ℕ)
    → 10 ≤ month_index doy
    → doy ≤ 365
    → date_of (pos e) (pos y) (pos doy)
      ≡ triple (y + 400 * e + 1) (month_index doy - 9) (day_in_month doy)
unfolding ◌+ℤ◌ ◌-ℤ◌
date_of-early e y doy h l = ground arith

day_of_era-pos :
    (doe : ℕ)
    → doe < 146097
    → pos doe
        -ℤ (scale 365 (pos (year_of doe))
            +ℤ quot (pos (year_of doe)) 4
            -ℤ quot (pos (year_of doe)) 100)
      ≡ pos (doe - days_before (year_of doe))
day_of_era-pos doe h =
    rw
      (
        add-pos (365 * year_of doe) (year_of doe / 4),
        sub-pos (365 * year_of doe + year_of doe / 4) (year_of doe / 100) (omega arith),
      )
      (sub-pos doe (days_before (year_of doe)) (year_of_lem doe h).1)

date_of_era-pos :
    (e doe : ℕ)
    → doe < 146097
    → date_of_era (pos e) (pos doe)
      ≡ date_of (pos e) (pos (year_of doe)) (pos (doe - days_before (year_of doe)))
unfolding date_of_era
date_of_era-pos e doe h =
    rw (year_in_era-pos doe h) (ap (date_of (pos e) (pos (year_of doe))) (day_of_era-pos doe h))

date_of_shifted-pos :
    (z : ℕ) → date_of_shifted (pos z) ≡ date_of_era (pos (z / 146097)) (pos (z % 146097))
unfolding date_of_shifted
date_of_shifted-pos z =
    let e : z - 146097 * (z / 146097) ≡ z % 146097 = omega arith in
    ap (date_of_era (pos (z / 146097))) (sub-pos z (146097 * (z / 146097)) (omega arith) ∙ ap pos e)

shifted : (n : ℕ) → pos n -ℤ pos epoch +ℤ pos 719468 ≡ pos (n + 305)
unfolding ◌+ℤ◌ ◌-ℤ◌
shifted n = ground arith

-- The calendar's date of an ordinal, as integers.
abbrev pub as_integers : ℕ × ℕ × ℕ → ℤ × ℤ × ℤ
as_integers (y, m, d) = triple y m d

placed :
    (y m d n : ℕ)
    → IsDate (y, m, d)
    → ymd_to_ord y m d + 305 ≡ n
    → date y m d ≡ ord_to_ymd (n - 305)
placed y m d n v e =
    let f : ymd_to_ord y m d ≡ n - 305 = omega (arith, e) in
    sym (ord_to_ymd-ymd_to_ord y m d v) ∙ ap ord_to_ymd f

date_of-ord :
    (e y doy : ℕ)
    → y < 400
    → 306 ≤ 146097 * e + days_before y + doy
    → doy ≤ 364 + leap_day (y + 400 * e + 1)
    → date_of (pos e) (pos y) (pos doy)
      ≡ as_integers (ord_to_ymd (146097 * e + days_before y + doy - 305))
date_of-ord e y doy b p l = elim (dec_lt (month_index doy) 10) [
  | yes h ↦
      let (v, o) = late e y doy b h (omega (arith, p, h)) in
      date_of-late e y doy h ∙ ap as_integers (placed _ _ _ _ v o)
  | no h ↦
      let (v, o) = early e y doy b (omega (arith, h)) l in
      date_of-early e y doy (omega (arith, h)) (omega (arith, l, leap_day-le (y + 400 * e + 1)))
      ∙ ap as_integers (placed _ _ _ _ v o)
]

-- The date of a day count by the closed formulas is the date that the calendar's loops find for the
-- ordinal of that day, from the first day of year 1 on.
pub civil_from_days-ord :
    (n : ℕ) → 1 ≤ n → civil_from_days (pos n -ℤ pos epoch) ≡ as_integers (ord_to_ymd n)
unfolding civil_from_days
civil_from_days-ord n h =
    let doe = (n + 305) % 146097 in
    let (b, lo, hi) = year_of_lem doe (omega arith) in
    let e : 146097 * ((n + 305) / 146097)
          + days_before (year_of doe)
          + (doe - days_before (year_of doe))
          - 305
        ≡ n =
      omega (arith, lo) in
    ap date_of_shifted (shifted n)
    ∙ date_of_shifted-pos (n + 305)
    ∙ date_of_era-pos ((n + 305) / 146097) doe (omega arith)
    ∙ date_of-ord ((n + 305) / 146097) (year_of doe) (doe - days_before (year_of doe)) b
        (omega (arith, h, lo)) (omega (arith, year_of_leap doe ((n + 305) / 146097) (omega arith)))
    ∙ ap (λ k. as_integers (ord_to_ymd k)) e
