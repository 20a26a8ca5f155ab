-- ===== src/Record/Once.antt =====
-- A recovery code is spent once through the store.
use shimpz_admin.Prelude.{
  ◌≡◌, refl, sym, subst, ap, ◌∙◌, inl, inr, Bool, true, false, Option, none, some, Text, Bool-cases,
  arith,
}
use shimpz_admin.Prelude.Int.{ℤ, pos, ◌+ℤ◌, ltb_ℤ, wrap}
use shimpz_admin.Signin.Totp.{
  Factor, Verification, accepted, record_failure, new_record, enrollment,
}
use shimpz_admin.Signin.Totp.Statuses.{is_accepted}
use shimpz_admin.Signin.Recovery.{CodeSet, Candidate, spend}
use shimpz_admin.Signin.Recovery.Spending.{spend_once}
use shimpz_admin.Record.{Result, ok, err, ◌>>=◌, Member, missing, unfit, held, Data, Libraries}
use shimpz_admin.Record.State.{AuthState, authentication_state}
use shimpz_admin.Record.Factors.{
  Enrollment, has_codes, second_factor_refused, is_locked_in, codes_in, refusal, replaced_factor,
  spent, spend_codes, spend_unless, spend_under, spend_in, spend_code,
}

-- What a result says of the code.
abbrev pub accepts : Result (Data × (Verification × Option Enrollment)) → Bool
accepts (ok (d, (r, shown))) = is_accepted r
accepts (err e) = false

failure_refuses : (now : ℤ) (f : Factor) → is_accepted (record_failure now f).1 ≡ false
unfolding record_failure
failure_refuses now f = ground arith

refusal_refuses : (now : ℤ) (d : Data) (m : Member Factor) → accepts (refusal now d m) ≡ false
refusal_refuses now d missing = refl
refusal_refuses now d unfit = refl
refusal_refuses now d (held f) = failure_refuses now f

-- The codes before and after a code was accepted.
record Used (derived : Candidate) (now : ℤ) (m : Member (Option CodeSet)) (d' : Data) : Type 0 where
  before : CodeSet
  after : CodeSet
  was : m ≡ held (some before)
  spending : spend derived now before ≡ some (after, true)
  is : d'.recovery_codes ≡ held (some after)

abbrev Uses :
    Candidate
    → ℤ
    → Member (Option CodeSet)
    → Result (Data × (Verification × Option Enrollment))
    → Type 0
Uses derived now m (ok (d', (r, shown))) = is_accepted r ≡ true → Used derived now m d'
Uses derived now m (err e) = Unit

refused-Uses :
    (derived : Candidate) (now : ℤ) (m : Member (Option CodeSet))
    (o : Result (Data × (Verification × Option Enrollment)))
    → accepts o ≡ false
    → Uses derived now m o
refused-Uses derived now m (ok (d', (r, shown))) h = λ a. absurd (ground (arith, a, h))
refused-Uses derived now m (err e) h = tt

replaced-Uses :
    (derived : Candidate) (now : ℤ) (c c' : CodeSet) (secret : Text) (f : Factor) (next : ℤ)
    (d : Data) (o : Option Text)
    → spend derived now c ≡ some (c', true)
    → Uses derived now
        (held (some c))
        (replaced_factor secret f next (record d { recovery_codes = held (some c') }) o)
replaced-Uses derived now c c' secret f next d none h = tt
replaced-Uses derived now c c' secret f next d (some shown) h =
    λ _. record { before = c; after = c'; was = refl; spending = h; is = refl }

module _ (X : Libraries) (derived : Candidate) (now : ℤ) where
  spent-Uses :
      (expected : ℤ) (fresh secret : Text) (d : Data) (c : CodeSet) (o : Option (CodeSet × Bool))
      → spend derived now c ≡ o
      → Uses derived now (held (some c)) (spent X fresh secret expected now d o)
  spent-Uses expected fresh secret d c none h = tt
  spent-Uses expected fresh secret d c (some (c', false)) h =
      refused-Uses derived now (held (some c)) _ (
        refusal_refuses now (second_factor_refused (record d { recovery_codes = held (some c') }))
          d.totp)
  spent-Uses expected fresh secret d c (some (c', true)) h =
      replaced-Uses derived now c c' secret (new_record fresh now) (wrap (expected +ℤ pos 1)) d
        (enrollment X.base32 (new_record fresh now)) h

  codes-Uses :
      (expected : ℤ) (fresh secret : Text) (d : Data) (m : Member (Option CodeSet))
      → Uses derived now m (spend_codes X derived expected fresh secret now d (codes_in m))
  codes-Uses expected fresh secret d missing = tt
  codes-Uses expected fresh secret d unfit = tt
  codes-Uses expected fresh secret d (held none) = tt
  codes-Uses expected fresh secret d (held (some c)) =
      spent-Uses expected fresh secret d c (spend derived now c) refl

  unless-Uses :
      (expected : ℤ) (fresh secret : Text) (d : Data) (b : Bool)
      → Uses derived now d.recovery_codes (spend_unless X derived expected fresh secret now d b)
  unless-Uses expected fresh secret d true = λ a. absurd (ground (arith, a))
  unless-Uses expected fresh secret d false = codes-Uses expected fresh secret d d.recovery_codes

  under-Uses :
      (expected : ℤ) (fresh secret : Text) (d : Data) (b : Bool)
      → Uses derived now d.recovery_codes (spend_under X derived expected fresh secret now d b)
  under-Uses expected fresh secret d false = λ a. absurd (ground (arith, a))
  under-Uses expected fresh secret d true =
      unless-Uses expected fresh secret d (is_locked_in d.totp now)

  in-Uses :
      (expected : ℤ) (fresh secret : Text) (d : Data) (s : Result AuthState)
      → Uses derived now d.recovery_codes (s >>= spend_in X derived expected fresh secret now d)
  in-Uses expected fresh secret d (err e) = tt
  in-Uses expected fresh secret d (ok s) = elim (Bool-cases (has_codes s)) [
    | inl b ↦ rw b (under-Uses expected fresh secret d _)
    | inr b ↦ rw b tt
  ]

  code-Uses :
      (expected : ℤ) (fresh secret : Text) (d : Data)
      → Uses derived now d.recovery_codes (spend_code X derived expected fresh secret now d)
  unfolding spend_code
  code-Uses expected fresh secret d = in-Uses expected fresh secret d (authentication_state X d)

  -- A candidate that is accepted through the store was accepted for the stored codes.
  spent-accepted :
      (expected : ℤ) (fresh secret : Text) (d d' : Data) (shown : Option Enrollment)
      → spend_code X derived expected fresh secret now d ≡ ok (d', (accepted, shown))
      → Used derived now d.recovery_codes d'
  spent-accepted expected fresh secret d d' shown h =
      subst (Uses derived now d.recovery_codes) h (code-Uses expected fresh secret d) refl

same_codes : (c c' : CodeSet) → held (some c) ≡ held (some c') → c ≡ c'
same_codes c c' h = ground (arith, h)

spent_true :
    (o : Option (CodeSet × Bool)) (c c' : CodeSet) → o ≡ some (c, true) → o ≡ some (c', false) → ⊥
spent_true o c c' h k = ground (arith, h, k)

-- The result of the second time.
again_refused :
    (X : Libraries) (derived : Candidate) (expected expected' : ℤ)
    (fresh secret fresh' secret' : Text) (now now' : ℤ) (d d' d'' : Data) (r : Verification)
    (shown shown' : Option Enrollment)
    → ltb_ℤ now (pos 1) ≡ false
    → spend_code X derived expected fresh secret now d ≡ ok (d', (accepted, shown))
    → spend_code X derived expected' fresh' secret' now' d' ≡ ok (d'', (r, shown'))
    → is_accepted r ≡ false
again_refused X derived expected expected' fresh secret fresh' secret' now now' d d' d'' r shown
      shown' l h g =
    let u = spent-accepted X derived now expected fresh secret d d' shown h in
    elim (Bool-cases (is_accepted r)) [
      | inr b ↦ b
      | inl b ↦
          let w : Used derived now' d'.recovery_codes d'' =
            subst (Uses derived now' d'.recovery_codes) g
              (code-Uses X derived now' expected' fresh' secret' d') b in
          let same = same_codes u.after w.before (sym u.is ∙ w.was) in
          let again = spend_once derived now now' u.before u.after l u.spending in
          absurd (
            spent_true (spend derived now' u.after) w.after u.after
              (ap (spend derived now') same ∙ w.spending) again)
    ]

-- A candidate that was accepted, at a time after 1970, is accepted for the record that it left under no
-- generation, at no time and with no draws.
pub spend_code_once :
    (X : Libraries) (derived : Candidate) (expected expected' : ℤ)
    (fresh secret fresh' secret' : Text) (now now' : ℤ) (d d' : Data) (shown : Option Enrollment)
    → ltb_ℤ now (pos 1) ≡ false
    → spend_code X derived expected fresh secret now d ≡ ok (d', (accepted, shown))
    → accepts (spend_code X derived expected' fresh' secret' now' d') ≡ false
spend_code_once X derived expected expected' fresh secret fresh' secret' now now' d d' shown l h =
    each (spend_code X derived expected' fresh' secret' now' d') refl
  where
    each :
        (o : Result (Data × (Verification × Option Enrollment)))
        → spend_code X derived expected' fresh' secret' now' d' ≡ o
        → accepts o ≡ false
    each (err e) g = refl
    each (ok (d'', (r, shown'))) g =
        again_refused X derived expected expected' fresh secret fresh' secret' now now' d d' d'' r
          shown shown' l h g
