-- ===== src/Time/Calendar/Months.antt =====
-- The days before a month of a year, and the loop that finds a month.
use native.Mathlib.Numerals.{add-one}
use shimpz_admin.Prelude.{
  ℕ, zero, suc, ◌+◌, ◌-◌, ◌≤◌, ◌<◌, ◌≡◌, refl, ap, ◌∙◌, arith, leb, Bool-cases, inl, inr,
}
use shimpz_admin.Time.Calendar.{
  days_in_year, days_in_month, days_before_month, add_months, find_month,
}

add_months_last :
    (left y m n : ℕ)
    → add_months (suc left) y m n ≡ add_months left y m n + days_in_month y (m + left)
unfolding add_months
add_months_last zero y m n = let e : m ≡ m + 0 = omega arith in ap (λ k. n + days_in_month y k) e
add_months_last (suc left) y m n =
    let e : m + 1 + left ≡ m + suc left = omega arith in
    add_months_last left y (m + 1) (n + days_in_month y m)
    ∙ ap (λ k. add_months left y (m + 1) (n + days_in_month y m) + days_in_month y k) e

-- One more month.
pub days_before_month-suc :
    (y m : ℕ) → 1 ≤ m → days_before_month y (suc m) ≡ days_before_month y m + days_in_month y m
unfolding days_before_month
days_before_month-suc y zero h = absurd (omega arith)
days_before_month-suc y (suc m) h =
    let e : suc (suc m) - 1 ≡ suc m = omega arith in
    let f : m ≡ suc m - 1 = omega arith in
    let g : 1 + m ≡ suc m = omega arith in
    ap (λ k. add_months k y 1 0) e
    ∙ add_months_last m y 1 0
    ∙ ap (λ k. add_months m y 1 0 + days_in_month y k) g
    ∙ ap (λ k. add_months k y 1 0 + days_in_month y (suc m)) f

-- The twelve months make up the year.
pub twelve_months : (y : ℕ) → days_before_month y 13 ≡ days_in_year y
unfolding days_before_month add_months days_in_month
twelve_months y = ground arith

-- The loop ends, in the month that the day belongs to.
pub find_month_lem :
    (fuel y m r : ℕ)
    → 1 ≤ m
    → days_before_month y m + r < days_before_month y (m + fuel)
    → (m ≤ (find_month fuel y m r).0)
      × ((find_month fuel y m r).0 < m + fuel)
      × ((find_month fuel y m r).1 < days_in_month y (find_month fuel y m r).0)
      × (days_before_month y (find_month fuel y m r).0 + (find_month fuel y m r).1
          ≡ days_before_month y m + r)
unfolding find_month
find_month_lem zero y m r p h =
    absurd (let e : m + 0 ≡ m = omega arith in ground (arith, h, ap (days_before_month y) e))
find_month_lem (suc fuel) y m r p h =
    let e = days_before_month-suc y m p in
    elim (Bool-cases (leb (days_in_month y m) r)) [
      | inl t ↦
          let s : suc m + fuel ≡ m + suc fuel = omega arith in
          let ih =
            find_month_lem fuel y (suc m) (r - days_in_month y m) (omega arith)
              (ground (arith, t, e, h, ap (days_before_month y) s)) in
          rw (t, find_month, add-one m)
            (omega arith, omega (arith, ih.1), ih.2, ground (arith, t, e, ih))
      | inr t ↦ rw (t, find_month) (omega arith, omega arith, ground (arith, t), refl)
    ]
