-- ===== src/Time/Calendar/Ordinals.antt =====
-- The date of an ordinal, and the ordinal of a date.
use native.Mathlib.Decide.{le_ind}
use native.Mathlib.Nat.{le_refl, le_trans}
use shimpz_admin.Prelude.{
  ℕ, suc, ◌+◌, ◌-◌, ◌*◌, ◌/◌, ◌%◌, ◌≤◌, ◌<◌, ◌≡◌, refl, ap, sym, subst, ◌∙◌, dec_lt, arith,
}
use shimpz_admin.Time.Calendar.{
  days_in_400_years, days_in_year, days_in_month, days_before_year, days_before_month, add_months,
  ymd_to_ord, find_year, year_fuel, month_fuel, ord_to_ymd,
}
use shimpz_admin.Time.Calendar.Years.{
  days_before_year-suc, cycles, before_1, before_401, find_year_lem,
}
use shimpz_admin.Time.Calendar.Months.{days_before_month-suc, twelve_months, find_month_lem}

abbrev pub date : ℕ → ℕ → ℕ → ℕ × ℕ × ℕ
date y m d = (y, m, d)

-- A day of the calendar.
pub record IsDate (date : ℕ × ℕ × ℕ) : Type 0 where
  pub year_in : 1 ≤ date.0
  pub month_in : (1 ≤ date.1) × (date.1 ≤ 12)
  pub day_in : (1 ≤ date.2) × (date.2 ≤ days_in_month date.0 date.1)

pub january : (y : ℕ) → days_before_month y 1 ≡ 0
unfolding days_before_month add_months
january y = refl

pub year_mono : (i j : ℕ) → 1 ≤ i → i ≤ j → days_before_year i ≤ days_before_year j
year_mono i j h =
    le_ind (λ m. days_before_year i ≤ days_before_year m) (le_refl _)
      (λ m le ih. omega (arith, days_before_year-suc m (le_trans h le), ih)) j

month_mono : (y i j : ℕ) → 1 ≤ i → i ≤ j → days_before_month y i ≤ days_before_month y j
month_mono y i j h =
    le_ind (λ m. days_before_month y i ≤ days_before_month y m) (le_refl _)
      (λ m le ih. omega (arith, days_before_month-suc y m (le_trans h le), ih)) j

-- The day of the year, from 0, of a date.
abbrev pub day_index : ℕ → ℕ → ℕ → ℕ
day_index year month day = days_before_month year month + day - 1

day_index-lt : (y m d : ℕ) → IsDate (y, m, d) → days_before_month y m + d ≤ days_in_year y
day_index-lt y m d v = omega (
  arith,
  v.day_in,
  days_before_month-suc y m v.month_in.0,
  twelve_months y,
  month_mono y (suc m) 13 (omega arith) (omega (arith, v.month_in)),
)

-- The start of the cycle of 400 years, and the place in it.
abbrev cycle : ℕ → ℕ
cycle offset = offset / days_in_400_years

located :
    (offset : ℕ)
    → (days_before_year (cycle offset * 400 + 1) + offset % days_in_400_years ≡ offset)
      × (days_before_year (cycle offset * 400 + 1) + offset % days_in_400_years
          < days_before_year (cycle offset * 400 + 1 + year_fuel))
located offset =
    let e : cycle offset * 400 + 401 ≡ cycle offset * 400 + 1 + year_fuel = omega arith in
    let c = cycles (cycle offset) 1 (omega arith) in
    let d = cycles (cycle offset) 401 (omega arith) in
    (omega (arith, c, before_1), omega (arith, c, d, before_1, before_401, ap days_before_year e))

-- Every ordinal from 1 on has a date, and the loops that look for it end: the date is a day of the
-- calendar, and the ordinal is its own.
pub ymd_to_ord-ord_to_ymd :
    (n : ℕ)
    → 1 ≤ n
    → IsDate (ord_to_ymd n) × (ymd_to_ord (ord_to_ymd n).0 (ord_to_ymd n).1 (ord_to_ymd n).2 ≡ n)
unfolding ord_to_ymd ymd_to_ord
ymd_to_ord-ord_to_ymd n h =
    let (l, u) = located (n - 1) in
    let y = find_year year_fuel (cycle (n - 1) * 400 + 1) ((n - 1) % days_in_400_years) in
    let (yl, yr, ye) =
      find_year_lem year_fuel (cycle (n - 1) * 400 + 1) ((n - 1) % days_in_400_years) (omega arith)
        u in
    let (ml, mu, mr, me) =
      find_month_lem month_fuel y.0 1 y.1 (omega arith)
        (omega (arith, yr, january y.0, twelve_months y.0)) in
    (
      record {
        year_in = omega (arith, yl);
        month_in = (ml, omega (arith, mu));
        day_in = (omega arith, omega (arith, mr));
      },
      omega (arith, ye, me, l, h, january y.0),
    )

-- An earlier day of the calendar has a smaller ordinal.
earlier_year :
    (y m d y' m' d' : ℕ)
    → IsDate (y, m, d)
    → IsDate (y', m', d')
    → y < y'
    → ymd_to_ord y m d < ymd_to_ord y' m' d'
unfolding ymd_to_ord
earlier_year y m d y' m' d' v w h = omega (
  arith,
  day_index-lt y m d v,
  days_before_year-suc y v.year_in,
  year_mono (suc y) y' (omega arith) h,
  w.day_in,
)

earlier_month :
    (y m d m' d' : ℕ)
    → IsDate (y, m, d)
    → IsDate (y, m', d')
    → m < m'
    → ymd_to_ord y m d < ymd_to_ord y m' d'
unfolding ymd_to_ord
earlier_month y m d m' d' v w h = omega (
  arith,
  v.day_in,
  days_before_month-suc y m v.month_in.0,
  month_mono y (suc m) m' (omega arith) h,
  w.day_in,
)

same_day : (y m d m' d' : ℕ) → m ≡ m' → ymd_to_ord y m d ≡ ymd_to_ord y m' d' → d ≡ d'
unfolding ymd_to_ord
same_day y m d m' d' s e = omega (arith, e, ap (days_before_month y) s)

same_year :
    (y m d m' d' : ℕ)
    → IsDate (y, m, d)
    → IsDate (y, m', d')
    → ymd_to_ord y m d ≡ ymd_to_ord y m' d'
    → date y m d ≡ date y m' d'
same_year y m d m' d' v w e = elim (dec_lt m m') [
  | yes l ↦ absurd (omega (arith, e, earlier_month y m d m' d' v w l))
  | no nl ↦ elim (dec_lt m' m) [
    | yes l ↦ absurd (omega (arith, e, earlier_month y m' d' m d w v l))
    | no nr ↦
        let s : m ≡ m' = omega (arith, nl, nr) in
        let f : d ≡ d' = same_day y m d m' d' s e in ap (λ k. date y k d) s ∙ ap (date y m') f
  ]
]

pub ymd_to_ord-pos : (y m d : ℕ) → IsDate (y, m, d) → 1 ≤ ymd_to_ord y m d
unfolding ymd_to_ord
ymd_to_ord-pos y m d v = omega (arith, v.day_in)

-- Two days of the calendar with one ordinal are the same day.
pub ymd_to_ord_inj :
    (y m d y' m' d' : ℕ)
    → IsDate (y, m, d)
    → IsDate (y', m', d')
    → ymd_to_ord y m d ≡ ymd_to_ord y' m' d'
    → date y m d ≡ date y' m' d'
ymd_to_ord_inj y m d y' m' d' v w e = elim (dec_lt y y') [
  | yes l ↦ absurd (omega (arith, e, earlier_year y m d y' m' d' v w l))
  | no nl ↦ elim (dec_lt y' y) [
    | yes l ↦ absurd (omega (arith, e, earlier_year y' m' d' y m d w v l))
    | no nr ↦
        let s : y' ≡ y = omega (arith, nl, nr) in
        same_year y m d m' d' v (subst (λ k. IsDate (k, m', d')) s w)
          (e ∙ ap (λ k. ymd_to_ord k m' d') s)
        ∙ ap (λ k. date k m' d') (sym s)
  ]
]

-- The ordinal of a day of the calendar leads back to that day.
pub ord_to_ymd-ymd_to_ord :
    (y m d : ℕ) → IsDate (y, m, d) → ord_to_ymd (ymd_to_ord y m d) ≡ date y m d
ord_to_ymd-ymd_to_ord y m d v =
    let (w, e) = ymd_to_ord-ord_to_ymd (ymd_to_ord y m d) (ymd_to_ord-pos y m d v) in
    ymd_to_ord_inj _ _ _ y m d w v e
