-- ===== src/Time/Calendar/Weeks.antt =====
-- Dates by week.
use shimpz_admin.Prelude.{
  ℕ, suc, ◌+◌, ◌-◌, ◌*◌, ◌%◌, ◌≤◌, ◌<◌, ◌≡◌, sym, ap, ◌∙◌, subst, true, some, arith, Bool-cases,
  inl, inr,
}
use shimpz_admin.Time.Calendar.{
  ymd_to_ord, ord_to_ymd, weekday, iso_to_ymd, has_week, week1_monday, days_before_year,
}
use shimpz_admin.Time.Calendar.Years.{days_before_year-suc}
use shimpz_admin.Time.Calendar.Ordinals.{IsDate, january, ymd_to_ord-ord_to_ymd}

-- The ordinal of a day of a week of a year.
abbrev pub ordinal_in_week : ℕ → ℕ → ℕ → ℕ
ordinal_in_week year week day = week1_monday year + (week - 1) * 7 + day - 1

weekday-ord :
    (date : ℕ × ℕ × ℕ) (n : ℕ)
    → ymd_to_ord date.0 date.1 date.2 ≡ n
    → weekday date.0 date.1 date.2 ≡ (n + 6) % 7
unfolding weekday
weekday-ord date n e = ap (λ k. (k + 6) % 7) e

-- The Monday of a year's first week is a Monday, and within three days of the year's first day.
week1_monday_lem :
    (year : ℕ)
    → 1 ≤ year
    → ((week1_monday year + 6) % 7 ≡ 0)
      × (week1_monday year ≤ ymd_to_ord year 1 1 + 3)
      × (ymd_to_ord year 1 1 ≤ week1_monday year + 3)
      × (1 ≤ week1_monday year)
unfolding ymd_to_ord days_before_year
week1_monday_lem year h = ground (arith, january year)

-- What an accepted week date is.
admitted :
    (year week day : ℕ) (date : ℕ × ℕ × ℕ)
    → iso_to_ymd year week day ≡ some date
    → (1 ≤ year)
      × (has_week year week ≡ true)
      × (1 ≤ day)
      × (day ≤ 7)
      × (ord_to_ymd (ordinal_in_week year week day) ≡ date)
unfolding iso_to_ymd
admitted year week day date h = elim (Bool-cases (has_week year week)) [
  | inr e ↦ absurd (ground (arith, h, e))
  | inl e ↦ ground (arith, h, e)
]

-- The Thursday of a week that a year has lies in the year.
thursday :
    (year week : ℕ)
    → 1 ≤ year
    → has_week year week ≡ true
    → (1 ≤ week)
      × (days_before_year year < ordinal_in_week year week 4)
      × (ordinal_in_week year week 4 ≤ days_before_year (suc year))
unfolding weekday ymd_to_ord
thursday year week h w = ground (arith, w, january year, days_before_year-suc year h)

place_in_week :
    (monday week day : ℕ)
    → (monday + 6) % 7 ≡ 0
    → 1 ≤ monday
    → 1 ≤ day
    → day ≤ 7
    → (1 ≤ monday + (week - 1) * 7 + day - 1)
      × ((monday + (week - 1) * 7 + day - 1 + 6) % 7 ≡ day - 1)
place_in_week monday week day m p lo hi = omega arith

-- A date that is read from a year, a week and a day is a day of the calendar, the day of the week that
-- was named, and the Thursday of its week is a day of the year that was named.
pub iso_to_ymd-IsDate :
    (year week day : ℕ) (date : ℕ × ℕ × ℕ)
    → iso_to_ymd year week day ≡ some date
    → IsDate date
      × (weekday date.0 date.1 date.2 ≡ day - 1)
      × (days_before_year year + day < ymd_to_ord date.0 date.1 date.2 + 4)
      × (ymd_to_ord date.0 date.1 date.2 + 4 ≤ days_before_year (suc year) + day)
iso_to_ymd-IsDate year week day date h =
    let (y, w, lo, hi, e) = admitted year week day date h in
    let (w1, t, u) = thursday year week y w in
    let (m, n, o, p) = week1_monday_lem year y in
    let (q, r) = place_in_week (week1_monday year) week day m p lo hi in
    let (v, f) = ymd_to_ord-ord_to_ymd (ordinal_in_week year week day) q in
    let g = ap (λ (x : ℕ × ℕ × ℕ). ymd_to_ord x.0 x.1 x.2) (sym e) ∙ f in
    (
      subst IsDate e v,
      weekday-ord date (ordinal_in_week year week day) g ∙ r,
      omega (arith, g, lo, w1, t),
      omega (arith, g, lo, w1, u),
    )
