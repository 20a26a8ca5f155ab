-- ===== src/Signin/Totp/Statuses.antt =====
-- The status of a factor after an attempt.
use shimpz_admin.Prelude.{
  ◌≡◌, refl, subst, inl, inr, Bool, true, false, Option, none, some, arith, Text, Bool-cases,
  Text-discrete, ℕ_discrete,
}
use shimpz_admin.Prelude.Int.{ℤ}
use shimpz_admin.Signin.Totp.{
  Value, Factor, Verification, accepted, Status, pending, active, status_of, active_text, text,
  decode_secret, as_int, matched_step, fresh, has_expired, is_locked, decide, record_failure,
  validated, verify, try_code,
}

abbrev pub is_accepted : Verification → Bool
is_accepted accepted = true
is_accepted _ = false

-- An accepted code activates a factor; any other result leaves its status.
abbrev pub Settles : Status → Factor → Verification → Type 0
Settles status f accepted = status_of f.status ≡ some active
Settles status f v = status_of f.status ≡ some status

refused-Settles :
    (status : Status) (now : ℤ) (f : Factor)
    → status_of f.status ≡ some status
    → Settles status (record_failure now f).0 (record_failure now f).1
unfolding record_failure
refused-Settles status now f e = ground (arith, e)

active_status_of : status_of (text active_text) ≡ some active
unfolding status_of Text-discrete ℕ_discrete
active_status_of = refl

decide-Settles :
    (status : Status) (now : ℤ) (f : Factor) (m : Option ℤ)
    → status_of f.status ≡ some status
    → Settles status (decide now f m).0 (decide now f m).1
decide-Settles status now f none e = refused-Settles status now f e
decide-Settles pending now f (some step) e = rw e active_status_of
decide-Settles active now f (some step) e = rw e e

abbrev AttemptSettles : Status → Option (Factor × Verification) → Type 0
AttemptSettles status none = Unit
AttemptSettles status (some (f, v)) = Settles status f v

module _ (hmac : Text → Text → Text) (base32 : Text → Option Text) where
  tried-Settles :
      (status : Status) (code : Value) (now : ℤ) (f : Factor) (o : Option Text)
      → status_of f.status ≡ some status
      → AttemptSettles status (try_code hmac base32 now code f o)
  tried-Settles status code now f none e = tt
  tried-Settles status code now f (some secret) e =
      decide-Settles status now f
        (fresh (as_int f.last_accepted_step) (matched_step hmac secret code now)) e

  result-Settles :
      (status : Status) (code : Value) (now : ℤ) (f : Factor)
      → status_of f.status ≡ some status
      → AttemptSettles status (verify hmac base32 code now f)
  unfolding verify
  result-Settles status code now f e = elim (Bool-cases (validated base32 f)) [
    | inr v ↦ rw v tt
    | inl v ↦ elim (Bool-cases (has_expired f now)) [
      | inl x ↦ rw (v, x) e
      | inr x ↦ elim (Bool-cases (is_locked f now)) [
        | inl l ↦ rw (v, x, l) e
        | inr l ↦ rw (v, x, l) (tried-Settles status code now f (decode_secret base32 f.secret) e)
      ]
    ]
  ]

  pub verify-Settles :
      (status : Status) (code : Value) (now : ℤ) (f f' : Factor) (v : Verification)
      → status_of f.status ≡ some status
      → verify hmac base32 code now f ≡ some (f', v)
      → Settles status f' v
  verify-Settles status code now f f' v e h =
      subst (AttemptSettles status) h (result-Settles status code now f e)
