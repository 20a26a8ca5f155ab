-- ===== src/Signin/Totp/Lock.antt =====
-- How long refusals lock the factor.
use native.Mathlib.Nat.{pow-le-pow_right, one-le-pow}
use shimpz_admin.Prelude.{
  ℕ, ◌+◌, ◌-◌, ◌*◌, ◌^◌, ◌≤◌, ◌<◌, ◌≡◌, min, dec_le, ltb, false, subst, if◌then◌else◌, true, arith,
}
use shimpz_admin.Prelude.Int.{pos}
use shimpz_admin.Signin.Totp.{doubled, lock_seconds}

pow_grows : (k : ℕ) → 2 ^ 16 ≤ 2 ^ (16 + k)
pow_grows k = pow-le-pow_right (omega arith) {i = 16} (omega arith)

far : (k : ℕ) → doubled (16 + k) ≡ min (300 * 2 ^ (16 + k)) 14400
far k = ground (arith, pow_grows k)

pub doubled_lem : (n : ℕ) → doubled n ≡ min (300 * 2 ^ n) 14400
doubled_lem n = elim (dec_le 16 n) [
  | yes h ↦ subst (λ n. doubled n ≡ min (300 * 2 ^ n) 14400) (omega arith) (far (n - 16))
  | no h ↦ ground (arith, h)
]

pub five_more : (n : ℕ) → lock_seconds (pos (5 + n)) ≡ min (300 * 2 ^ n) 14400
unfolding lock_seconds
five_more n = ground (arith, doubled_lem n)

-- Below five refusals there is no lock; from the fifth on the lock doubles with each one from five
-- minutes to four hours.
pub lock_seconds_lem :
    (n : ℕ) → lock_seconds (pos n) ≡ (if ltb n 5 then 0 else min (300 * 2 ^ (n - 5)) 14400)
unfolding lock_seconds
lock_seconds_lem n = ground (arith, doubled_lem (n - 5))

pub locks : (n : ℕ) → 5 ≤ n → ltb 0 (lock_seconds (pos n)) ≡ true
unfolding lock_seconds
locks n h = ground (arith, one-le-pow (min (n - 5) 16) 2)

pub no_lock : (n : ℕ) → n < 5 → ltb 0 (lock_seconds (pos n)) ≡ false
unfolding lock_seconds
no_lock n h = ground arith
