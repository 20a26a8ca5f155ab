-- ===== src/Signin/Totp/Refusal.antt =====
-- What a refused code brings about.
use shimpz_admin.Prelude.{
  ℕ, ◌+◌, ◌*◌, ◌^◌, ◌≤◌, ◌<◌, ◌≡◌, ◌≢◌, refl, ap, ◌∙◌, subst, sym, Option-cases, inl, inr, none,
  min, dec_le, true, false, Text, Option, some, arith,
}
use shimpz_admin.Prelude.Int.{ℤ, pos, add-pos, wrap_small}
use shimpz_admin.Signin.Totp.{
  Value, Factor, Verification, accepted, try_code, fresh, matched_step, decode_secret, locked,
  as_int, lock_seconds, record_failure, is_locked, has_expired, max_failures, validated, verify,
}
use shimpz_admin.Signin.Totp.Lock.{five_more}
use shimpz_admin.Signin.Totp.Stored.{
  counted, lock_end, failures-pos, record_failure-many, failure-validated,
}

top_lock : lock_seconds (pos max_failures) ≡ 14400
unfolding lock_seconds
top_lock = refl

abbrev Long : ℕ → ℕ → Type 0
Long n m = (min (300 * 2 ^ n) 14400 ≤ lock_seconds (pos m)) × (lock_seconds (pos m) ≤ 14400)

lock-Long : (n : ℕ) → 4 + n ≤ max_failures → Long n (counted (4 + n))
lock-Long n b = elim (dec_le (5 + n) max_failures) [
  | yes h ↦
      let e : counted (4 + n) ≡ 5 + n = omega (arith, h) in
      let s = five_more n in subst (Long n) (sym e) (omega (arith, s), omega (arith, s))
  | no h ↦
      let e : counted (4 + n) ≡ max_failures = omega (arith, h) in
      subst (Long n) (sym e) (omega (arith, top_lock), omega (arith, top_lock))
]

lock_end-pos :
    (t k : ℕ)
    → t + lock_seconds (pos (counted k)) < 2 ^ 63
    → lock_end (pos t) k ≡ pos (t + lock_seconds (pos (counted k)))
lock_end-pos t k h = rw add-pos (wrap_small _ h)

module _ (hmac : Text → Text → Text) (base32 : Text → Option Text) where
  verify-locked :
      (code : Value) (now : ℤ) (f : Factor)
      → validated base32 f ≡ true
      → has_expired f now ≡ false
      → is_locked f now ≡ true
      → verify hmac base32 code now f ≡ some (f, locked)
  unfolding verify
  verify-locked code now f v x l = rw (v, x, l) refl

  -- A code that was tried and not accepted is a failure.
  tried-refused :
      (code : Value) (now : ℤ) (f g : Factor) (o : Verification) (secret : Option Text)
      → try_code hmac base32 now code f secret ≡ some (g, o)
      → o ≢ accepted
      → (g, o) ≡ record_failure now f
  tried-refused code now f g o none h n = ground (arith, h)
  tried-refused code now f g o (some secret) h n =
      elim (Option-cases
        (fresh (as_int f.last_accepted_step) (matched_step hmac secret code now))) [
          | inl e ↦ ground (arith, e, h)
          | inr (step, e) ↦ absurd (n (ground (arith, e, h)))
        ]

  verify-refused :
      (code : Value) (now : ℤ) (f g : Factor) (o : Verification)
      → validated base32 f ≡ true
      → has_expired f now ≡ false
      → is_locked f now ≡ false
      → verify hmac base32 code now f ≡ some (g, o)
      → o ≢ accepted
      → (g, o) ≡ record_failure now f
  unfolding verify
  verify-refused code now f g o v x l h n =
      tried-refused code now f g o (decode_secret base32 f.secret) (ground (arith, v, x, l, h)) n

  failure_locks :
      (code : Value) (t t' n : ℕ) (f : Factor)
      → validated base32 f ≡ true
      → as_int f.failures ≡ some (pos (4 + n))
      → has_expired f (pos t') ≡ false
      → t + 14400 < 2 ^ 63
      → t' < t + min (300 * 2 ^ n) 14400
      → ((record_failure (pos t) f).1 ≡ locked)
        × (as_int (record_failure (pos t) f).0.failures ≡ some (pos (min (5 + n) 1000000)))
        × (verify hmac base32 code (pos t') (record_failure (pos t) f).0
            ≡ some ((record_failure (pos t) f).0, locked))
  unfolding is_locked
  failure_locks code t t' n f v e x b h =
      let (k, e', c, i) = failures-pos base32 f v in
      let m : 4 + n ≤ max_failures = ground (arith, e, e', c) in
      let (low, high) = lock-Long n m in
      let w = failure-validated base32 (pos t) f v in
      let u = lock_end-pos t (4 + n) (omega (arith, b, high)) in
      let q = record_failure-many (pos t) f (4 + n) e (omega arith) m in
      let l : is_locked (record_failure (pos t) f).0 (pos t') ≡ true =
        rw (q, u) (ground (arith, low, h)) in
      let d : counted (4 + n) ≡ min (5 + n) 1000000 = omega arith in
      (
        rw q refl,
        rw (q, d) refl,
        verify-locked code (pos t') (record_failure (pos t) f).0 w (rw q x) l,
      )

  -- A code that is tried after at least four refusals in a row, on a factor that is neither expired nor
  -- locked, and is not accepted, locks the factor and is counted: until the lock ends, which lasts five
  -- minutes at first and doubles with each refusal up to four hours, every attempt on the factor, unless
  -- its enrollment has expired, is answered as locked and changes nothing.
  pub refusal_locks :
      (code code' : Value) (t t' n : ℕ) (f g : Factor) (o : Verification)
      → validated base32 f ≡ true
      → as_int f.failures ≡ some (pos (4 + n))
      → has_expired f (pos t) ≡ false
      → has_expired f (pos t') ≡ false
      → is_locked f (pos t) ≡ false
      → t + 14400 < 2 ^ 63
      → t' < t + min (300 * 2 ^ n) 14400
      → verify hmac base32 code (pos t) f ≡ some (g, o)
      → o ≢ accepted
      → (o ≡ locked)
        × (as_int g.failures ≡ some (pos (min (5 + n) 1000000)))
        × (verify hmac base32 code' (pos t') g ≡ some (g, locked))
  refusal_locks code code' t t' n f g o v e x x' l b h r a =
      let same = verify-refused code (pos t) f g o v x l r a in
      let (p, q, w) = failure_locks code' t t' n f v e x' b h in
      (
        ap (λ y. y.1) same ∙ p,
        ap (λ y. as_int y.0.failures) same ∙ q,
        subst (λ y. verify hmac base32 code' (pos t') y.0 ≡ some (y.0, locked)) (sym same) w,
      )
