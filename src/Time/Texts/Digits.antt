-- ===== src/Time/Texts/Digits.antt =====
-- The digits of a field.
use shimpz_admin.Prelude.{ℕ, suc, ◌+◌, ◌/◌, ◌%◌, ◌≤◌, ◌<◌, ◌≡◌, [], ◌∷◌, some, arith, Text, dec_lt}
use shimpz_admin.Prelude.Int.{pos}
use shimpz_admin.Time.Texts.{write_digits, pad, padded, number}

abbrev pub digit : ℕ → ℕ
digit n = 48 + n % 10

write_last : (fuel n : ℕ) (w : Text) → n < 10 → write_digits (suc fuel) n w ≡ (48 + n) ∷ w
unfolding write_digits
write_last fuel n w h = ground (arith, h)

write_next :
    (fuel n : ℕ) (w : Text)
    → 10 ≤ n
    → write_digits (suc fuel) n w ≡ write_digits fuel (n / 10) ((48 + n % 10) ∷ w)
unfolding write_digits
write_next fuel n w h = ground (arith, h)

pub two_digits : (n : ℕ) → n < 100 → padded 2 (pos n) ≡ digit (n / 10) ∷ digit n ∷ []
unfolding pad
two_digits n h = elim (dec_lt n 10) [
  | yes l ↦ rw (write_last 19 n [] l) (ground (arith, l))
  | no g ↦
      rw
        (
          write_next 19 n [] (omega (arith, g)),
          write_last 18 (n / 10) ((48 + n % 10) ∷ []) (omega arith),
        )
        (ground (arith, h))
]

pub four_digits :
    (n : ℕ)
    → n < 10000
    → padded 4 (pos n) ≡ digit (n / 1000) ∷ digit (n / 100) ∷ digit (n / 10) ∷ digit n ∷ []
unfolding pad
four_digits n h = elim (dec_lt n 10) [
  | yes l ↦ rw (write_last 19 n [] l) (ground (arith, l))
  | no g ↦ elim (dec_lt n 100) [
    | yes l ↦
        rw
          (
            write_next 19 n [] (omega (arith, g)),
            write_last 18 (n / 10) ((48 + n % 10) ∷ []) (omega (arith, l)),
          )
          (ground (arith, l))
    | no g' ↦ elim (dec_lt n 1000) [
      | yes l ↦
          rw
            (
              write_next 19 n [] (omega (arith, g)),
              write_next 18 (n / 10) ((48 + n % 10) ∷ []) (omega (arith, g')),
              write_last 17 (n / 10 / 10) ((48 + n / 10 % 10) ∷ (48 + n % 10) ∷ [])
                  (omega (arith, l)),
            )
            (ground (arith, l))
      | no g'' ↦
          rw
            (
              write_next 19 n [] (omega (arith, g)),
              write_next 18 (n / 10) ((48 + n % 10) ∷ []) (omega (arith, g')),
              write_next 17 (n / 10 / 10) ((48 + n / 10 % 10) ∷ (48 + n % 10) ∷ [])
                  (omega (arith, g'')),
              write_last 16 (n / 10 / 10 / 10)
                  ((48 + n / 10 / 10 % 10) ∷ (48 + n / 10 % 10) ∷ (48 + n % 10) ∷ [])
                  (omega (arith, h)),
            )
            (ground (arith, h))
    ]
  ]
]

pub number-two : (n : ℕ) → n < 100 → number (digit (n / 10) ∷ digit n ∷ []) ≡ some n
unfolding number
number-two n h = ground arith

pub number-four :
    (n : ℕ)
    → n < 10000
    → number (digit (n / 1000) ∷ digit (n / 100) ∷ digit (n / 10) ∷ digit n ∷ []) ≡ some n
unfolding number
number-four n h = ground arith
