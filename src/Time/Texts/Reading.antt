-- ===== src/Time/Texts/Reading.antt =====
-- An instant that is written is read back.
use shimpz_admin.Prelude.{
  ℕ, ◌+◌, ◌*◌, ◌/◌, ◌%◌, ◌≤◌, ◌<◌, ◌≡◌, refl, sym, ap, ◌∙◌, [], ◌∷◌, some, arith, Text, dec_lt,
}
use shimpz_admin.Prelude.Int.{pos, ◌+ℤ◌, ◌-ℤ◌, scale}
use shimpz_admin.Time.Calendar.{ymd_to_ord, ord_to_ymd, days_in_month, days_before_year}
use shimpz_admin.Time.Calendar.Ordinals.{IsDate, ymd_to_ord-ord_to_ymd, year_mono}
use shimpz_admin.Time.Instants.{civil_from_days, days_from_civil}
use shimpz_admin.Time.Instants.Civil.{epoch, civil_from_days-ord, as_integers}
use shimpz_admin.Time.Instants.Days.{days_from_civil-ord}
use shimpz_admin.Time.Texts.{written, utc, month_days, checked, parse_utc, day_seconds}
use shimpz_admin.Time.Texts.Digits.{digit, two_digits, four_digits, number-two, number-four}

-- The days that `parse_utc` admits are those of the calendar.
month_days-calendar : (y m d : ℕ) → IsDate (y, m, d) → month_days y m ≡ some (days_in_month y m)
unfolding days_in_month
month_days-calendar y m d v = ground (arith, v.month_in)

-- The fields of a written instant.
abbrev pub texts : ℕ → ℕ → ℕ → ℕ → ℕ → ℕ → Text
texts y m d h i s =
    digit (y / 1000)
    ∷ digit (y / 100)
    ∷ digit (y / 10)
    ∷ digit y
    ∷ 45
    ∷ digit (m / 10)
    ∷ digit m
    ∷ 45
    ∷ digit (d / 10)
    ∷ digit d
    ∷ 84
    ∷ digit (h / 10)
    ∷ digit h
    ∷ 58
    ∷ digit (i / 10)
    ∷ digit i
    ∷ 58
    ∷ digit (s / 10)
    ∷ digit s
    ∷ 90
    ∷ []

read :
    (y m d h i s : ℕ)
    → y < 10000
    → m < 100
    → d < 100
    → h < 100
    → i < 100
    → s < 100
    → parse_utc (texts y m d h i s) ≡ checked y m d h i s (month_days y m)
unfolding parse_utc
read y m d h i s hy hm hd hh hi hs =
    rw
      (
        number-four y hy,
        number-two m hm,
        number-two d hd,
        number-two h hh,
        number-two i hi,
        number-two s hs,
      )
      refl

last_year : days_before_year 10000 ≡ 3652059
unfolding days_before_year
last_year = refl

month_days-le : (y m : ℕ) → days_in_month y m ≤ 31
unfolding days_in_month
month_days-le y m = ground arith

year_bound : (y m d : ℕ) → IsDate (y, m, d) → ymd_to_ord y m d ≤ 3652059 → y < 10000
unfolding ymd_to_ord
year_bound y m d v h = elim (dec_lt y 10000) [
  | yes l ↦ l
  | no g ↦
      absurd
        (omega (arith, h, v.day_in, last_year, year_mono 10000 y (omega arith) (omega (arith, g))))
]

written_lem :
    (y m d r : ℕ)
    → y < 10000
    → m < 100
    → d < 100
    → r < day_seconds
    → written (as_integers (y, m, d)) r ≡ texts y m d (r / 3600) (r % 3600 / 60) (r % 60)
written_lem y m d r hy hm hd hr =
    rw
      (
        four_digits y hy,
        two_digits m hm,
        two_digits d hd,
        two_digits (r / 3600) (omega (arith, hr)),
        two_digits (r % 3600 / 60) (omega arith),
        two_digits (r % 60) (omega arith),
      )
      refl

seconds_lem :
    (k r : ℕ)
    → scale day_seconds (pos k) +ℤ pos (r / 3600 * 3600) +ℤ pos (r % 3600 / 60 * 60) +ℤ pos (r % 60)
      ≡ pos (day_seconds * k + r)
unfolding ◌+ℤ◌
seconds_lem k r = ground arith

since_epoch : (k : ℕ) → pos (k + epoch) -ℤ pos epoch ≡ pos k
unfolding ◌-ℤ◌
since_epoch k = ground arith

checked_lem :
    (y m d k r : ℕ)
    → IsDate (y, m, d)
    → r < day_seconds
    → ymd_to_ord y m d ≡ k + epoch
    → checked y m d (r / 3600) (r % 3600 / 60) (r % 60) (month_days y m)
      ≡ some (pos (day_seconds * k + r))
checked_lem y m d k r v hr e =
    let days : days_from_civil (pos y) (pos m) (pos d) ≡ pos k =
      days_from_civil-ord y m d v ∙ ap (λ n. pos n -ℤ pos epoch) e ∙ since_epoch k in
    rw (month_days-calendar y m d v, days, seconds_lem k r) (ground (arith, v.day_in, hr))

-- An instant is written as the fields of the calendar's date of its day and of the time of that day.
pub utc-texts :
    (n : ℕ)
    → n < 253402300800
    → let date = ord_to_ymd (n / day_seconds + epoch) in
      let r = n % day_seconds in
      (utc (pos n) ≡ texts date.0 date.1 date.2 (r / 3600) (r % 3600 / 60) (r % 60))
      × IsDate date
      × (date.0 < 10000)
      × (date.2 < 100)
      × (ymd_to_ord date.0 date.1 date.2 ≡ n / day_seconds + epoch)
unfolding utc
utc-texts n h =
    let k = n / day_seconds in
    let r = n % day_seconds in
    let (v, e) = ymd_to_ord-ord_to_ymd (k + epoch) (omega arith) in
    let c : civil_from_days (pos k) ≡ as_integers (ord_to_ymd (k + epoch)) =
      ap civil_from_days (sym (since_epoch k)) ∙ civil_from_days-ord (k + epoch) (omega arith) in
    let date = ord_to_ymd (k + epoch) in
    let hy = year_bound date.0 date.1 date.2 v (omega (arith, e, h)) in
    let hd : date.2 < 100 = omega (arith, v.day_in, month_days-le date.0 date.1) in
    (
      ap (λ c. written c r) c
          ∙ written_lem date.0 date.1 date.2 r hy (omega (arith, v.month_in)) hd (omega arith),
      v,
      hy,
      hd,
      e,
    )

-- An instant from 1970-01-01T00:00:00Z to 9999-12-31T23:59:59Z, written as a text, is read back.
pub parse_utc-utc : (n : ℕ) → n < 253402300800 → parse_utc (utc (pos n)) ≡ some (pos n)
parse_utc-utc n h =
    let k = n / day_seconds in
    let r = n % day_seconds in
    let (w, v, hy, hd, e) = utc-texts n h in
    let s : day_seconds * k + r ≡ n = omega arith in
    ap parse_utc w
    ∙ read _ _ _ (r / 3600) (r % 3600 / 60) (r % 60) hy (omega (arith, v.month_in)) hd (omega arith)
        (omega arith) (omega arith)
    ∙ checked_lem _ _ _ k r v (omega arith) e
    ∙ ap (λ n. some (pos n)) s
