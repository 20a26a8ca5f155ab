-- ===== src/Signin/Totp/Stored.antt =====
-- Attempts keep a stored factor within its contract.
use shimpz_admin.Prelude.{
  ◌<◌, Text-discrete, ℕ_discrete, refl, dec_le, ℕ, ◌+◌, ◌≤◌, ◌≡◌, min, subst, sym, ap, ◌∙◌, inl,
  inr, true, false, Option, none, some, arith, Text, Bool-cases, Option-cases,
}
use shimpz_admin.Prelude.Int.{ℤ, pos, negsuc, ltb_ℤ, add-pos, wrap, wrap_small, ◌+ℤ◌}
use shimpz_admin.Signin.Totp.{
  Value, int, text, Factor, Verification, Status, pending, active, as_int, status_of, active_text,
  one_more, lock_seconds, max_failures, in_order, status_fits, nullable_int, fresh, accept, decide,
  record_failure, invalid, locked, validated, verify,
}
use shimpz_admin.Signin.Totp.Lock.{locks, no_lock}
use shimpz_admin.Signin.Totp.Replay.{verify_cases, after}

pub one_more_lem :
    (k : ℕ) → k ≤ max_failures → one_more (some (pos k)) ≡ pos (min (k + 1) max_failures)
one_more_lem k h = rw add-pos (ground (arith, wrap, wrap_small (k + 1) (omega (arith, h))))

bounds :
    (c r n : Option ℤ) (m : ℤ)
    → in_order c r n ≡ true
    → ltb_ℤ m (pos 0) ≡ false
    → ltb_ℤ (pos max_failures) m ≡ false
    → in_order c r (some m) ≡ true
bounds c r n m h k l = ground arith

status_fits-refused :
    (s : Option Status) (f : Factor) (m v : Value)
    → status_fits s f ≡ true
    → status_fits s (record f { failures = m; locked_until = v }) ≡ true
status_fits-refused none f m v h = h
status_fits-refused (some pending) f m v h = h
status_fits-refused (some active) f m v h = h

-- A refused code, counted.
abbrev pub counted : ℕ → ℕ
counted k = min (k + 1) max_failures

abbrev pub lock_end : ℤ → ℕ → ℤ
lock_end now k = wrap (now +ℤ pos (lock_seconds (pos (counted k))))

pub record_failure-few :
    (now : ℤ) (f : Factor) (k : ℕ)
    → as_int f.failures ≡ some (pos k)
    → k < 4
    → record_failure now f ≡ (record f { failures = int (pos (counted k)) }, invalid)
unfolding record_failure
record_failure-few now f k e b =
    rw (e, one_more_lem k (omega (arith, b)), no_lock (counted k) (omega (arith, b))) refl

pub record_failure-many :
    (now : ℤ) (f : Factor) (k : ℕ)
    → as_int f.failures ≡ some (pos k)
    → 4 ≤ k
    → k ≤ max_failures
    → record_failure now f
      ≡ (record f { failures = int (pos (counted k)); locked_until = int (lock_end now k) }, locked)
unfolding record_failure
record_failure-many now f k e b c =
    rw (e, one_more_lem k c, locks (counted k) (omega (arith, b))) refl

status_of-active : status_of (text active_text) ≡ some active
unfolding status_of Text-discrete ℕ_discrete
status_of-active = refl

module _ (base32 : Text → Option Text) where
  refused-validated :
      (f : Factor) (m : ℤ) (v : Value)
      → validated base32 f ≡ true
      → ltb_ℤ m (pos 0) ≡ false
      → ltb_ℤ (pos max_failures) m ≡ false
      → nullable_int v ≡ true
      → validated base32 (record f { failures = int m; locked_until = v }) ≡ true
  unfolding validated
  refused-validated f m v h k l n = ground (
    arith,
    bounds (as_int f.created_at) (as_int f.resumed_at) (as_int f.failures) m,
    status_fits-refused (status_of f.status) f (int m) v,
  )

  -- What a valid factor's failures are.
  pub failures-pos :
      (f : Factor)
      → validated base32 f ≡ true
      → (k : ℕ) × (as_int f.failures ≡ some (pos k))
        × (k ≤ max_failures)
        × (nullable_int f.locked_until ≡ true)
  unfolding validated
  failures-pos f h = elim (Option-cases (as_int f.failures)) [
    | inl e ↦ absurd (ground (arith, h, e))
    | inr (pos k, e) ↦ (k, e, ground (arith, h, e), ground (arith, h, e))
    | inr (negsuc k, e) ↦ absurd (ground (arith, h, e))
  ]

  pub failure-validated :
      (now : ℤ) (f : Factor)
      → validated base32 f ≡ true
      → validated base32 (record_failure now f).0 ≡ true
  failure-validated now f h =
      let (k, e, b, n) = failures-pos f h in
      elim (dec_le 4 k) [
        | yes l ↦ rw (record_failure-many now f k e l b) (
            refused-validated f (pos (counted k)) (int (lock_end now k)) h (ground arith)
              (ground arith) refl)
        | no l ↦
            rw (record_failure-few now f k e (omega (arith, l))) (
              refused-validated f (pos (counted k)) f.locked_until h (ground arith) (ground arith)
                n)
      ]

  activated-fits :
      (now step : ℤ) (f : Factor) (c : ℤ)
      → validated base32 f ≡ true
      → as_int f.created_at ≡ some c
      → ltb_ℤ now c ≡ false
      → validated base32 (accept now step f) ≡ true
  unfolding validated
  activated-fits now step f c h e l = elim (Option-cases (status_of f.status)) [
    | inl s ↦ absurd (ground (arith, h, s))
    | inr (pending, s) ↦ rw s (
        ground (
          arith,
          h,
          e,
          l,
          status_of-active,
          bounds (as_int f.created_at) (as_int f.resumed_at) (as_int f.failures) (pos 0),
        ))
    | inr (active, s) ↦ rw s (
        ground (
          arith,
          h,
          e,
          l,
          s,
          bounds (as_int f.created_at) (as_int f.resumed_at) (as_int f.failures) (pos 0),
        ))
  ]

module _ (hmac : Text → Text → Text) (base32 : Text → Option Text) where
  verify-valid :
      (code : Value) (now : ℤ) (f f' : Factor) (v : Verification)
      → verify hmac base32 code now f ≡ some (f', v)
      → validated base32 f ≡ true
  unfolding verify
  verify-valid code now f f' v h = elim (Bool-cases (validated base32 f)) [
    | inl e ↦ e
    | inr e ↦ absurd (ground (arith, h, e))
  ]

  decide-validated :
      (now : ℤ) (f : Factor) (c : ℤ) (m : Option ℤ)
      → validated base32 f ≡ true
      → as_int f.created_at ≡ some c
      → ltb_ℤ now c ≡ false
      → validated base32 (decide now f m).0 ≡ true
  decide-validated now f c none h e l = failure-validated base32 now f h
  decide-validated now f c (some step) h e l = activated-fits base32 now step f c h e l

  -- An attempt on a factor, made no earlier than the factor was created, leaves a factor that meets
  -- the stored contract again.
  pub verify-validated :
      (code : Value) (now : ℤ) (f f' : Factor) (v : Verification) (c : ℤ)
      → as_int f.created_at ≡ some c
      → ltb_ℤ now c ≡ false
      → verify hmac base32 code now f ≡ some (f', v)
      → validated base32 f' ≡ true
  verify-validated code now f f' v c e l h =
      let valid = verify-valid code now f f' v h in
      elim (verify_cases hmac base32 code now f) [
        | inl same ↦
            subst (λ g. validated base32 g ≡ true) (sym same ∙ ap (after hmac base32 f) h) valid
        | inr (_, matched, g) ↦
            subst (λ g. validated base32 g ≡ true) (ap (after hmac base32 f) (sym g ∙ h))
              (decide-validated now f c (fresh (as_int f.last_accepted_step) matched) valid e l)
      ]
