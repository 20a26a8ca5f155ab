-- ===== src/Time/Calendar/Years.antt =====
-- The days before a year, and the loop that finds a year.
use native.Mathlib.Numerals.{add-one}
use shimpz_admin.Prelude.{
  ℕ, zero, suc, ◌+◌, ◌-◌, ◌*◌, ◌≤◌, ◌<◌, ◌≡◌, refl, ap, arith, leb, Bool-cases, inl, inr,
}
use shimpz_admin.Time.Calendar.{days_in_year, days_before_year, find_year, days_in_400_years}

pub days_before_year-suc :
    (y : ℕ) → 1 ≤ y → days_before_year (suc y) ≡ days_before_year y + days_in_year y
unfolding days_before_year
days_before_year-suc y h = ground arith

pub cycles :
    (q s : ℕ) → 1 ≤ s → days_before_year (q * 400 + s) ≡ q * days_in_400_years + days_before_year s
unfolding days_before_year
cycles q s h = ground arith

pub before_401 : days_before_year 401 ≡ days_in_400_years
unfolding days_before_year
before_401 = refl

pub before_1 : days_before_year 1 ≡ 0
unfolding days_before_year
before_1 = refl

-- The loop ends, in the year that the day belongs to.
pub find_year_lem :
    (fuel y r : ℕ)
    → 1 ≤ y
    → days_before_year y + r < days_before_year (y + fuel)
    → (y ≤ (find_year fuel y r).0)
      × ((find_year fuel y r).1 < days_in_year (find_year fuel y r).0)
      × (days_before_year (find_year fuel y r).0 + (find_year fuel y r).1 ≡ days_before_year y + r)
unfolding find_year
find_year_lem zero y r p h =
    absurd (let e : y + 0 ≡ y = omega arith in ground (arith, h, ap days_before_year e))
find_year_lem (suc fuel) y r p h =
    let e = days_before_year-suc y p in
    elim (Bool-cases (leb (days_in_year y) r)) [
      | inl t ↦
          let s : suc y + fuel ≡ y + suc fuel = omega arith in
          let ih =
            find_year_lem fuel (suc y) (r - days_in_year y) (omega arith)
              (ground (arith, t, e, h, ap days_before_year s)) in
          rw (t, find_year, add-one y) (omega arith, ih.1, ground (arith, t, e, ih))
      | inr t ↦ rw (t, find_year) (omega arith, ground (arith, t), refl)
    ]
