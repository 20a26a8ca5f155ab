-- ===== src/Signin/Totp/Replay.antt =====
-- No code is accepted twice.
use shimpz_admin.Prelude.{
  ◌≡◌, subst, ap, ◌∙◌, ◌⊎◌, refl, inl, inr, Bool, true, false, List, [], ◌∷◌, Option, none, some,
  arith, Text, Bool-cases, Option-cases,
}
use shimpz_admin.Prelude.Int.{ℤ, pos, negsuc, ◌+ℤ◌, ltb_ℤ}
use shimpz_admin.Signin.Totp.{
  Status, pending, active, activate, Value, null, int, text, Factor, Verification, accepted, as_int,
  status_of, is_code, step_at, is_locked, has_expired, fresh, accept, decide, record_failure,
  decode_secret, validated, hotp, matched_step, last_match, verify,
}

-- Is the first step, if there is one, before the second?
abbrev pub earlier : Option ℤ → ℤ → Bool
earlier none step = true
earlier (some last) step = ltb_ℤ last step

fresh_cases :
    (last matched : Option ℤ) (step : ℤ)
    → fresh last matched ≡ some step
    → (matched ≡ some step) × (earlier last step ≡ true)
fresh_cases none none step h = cc
fresh_cases (some l) none step h = cc
fresh_cases none (some m) step h = ground arith
fresh_cases (some l) (some m) step h = elim (Bool-cases (ltb_ℤ l m)) [
  | inl e ↦ ground (arith, e)
  | inr e ↦ ground (arith, e)
]

module _ (hmac : Text → Text → Text) where
  three :
      (secret code : Text) (a b c step : ℤ)
      → last_match hmac secret code (a ∷ b ∷ c ∷ []) none ≡ some step
      → (code ≡ hotp hmac secret step) × ((step ≡ a) ⊎ ((step ≡ b) ⊎ (step ≡ c)))
  three secret code a b c step h = ground (arith, h)

  match_cases :
      (secret : Text) (code : Value) (now step : ℤ)
      → matched_step hmac secret code now ≡ some step
      → (digits : Text) × (code ≡ text digits)
        × (is_code digits ≡ true)
        × (digits ≡ hotp hmac secret step)
        × ((step ≡ step_at now +ℤ negsuc 0)
            ⊎ ((step ≡ step_at now) ⊎ (step ≡ step_at now +ℤ pos 1)))
  unfolding matched_step
  match_cases secret (text digits) now step h = elim (Bool-cases (is_code digits)) [
    | inl e ↦
        let (same, near) = three secret digits _ _ _ step (ground (arith, e)) in
        (digits, refl, e, same, near)
    | inr e ↦ absurd (ground (arith, e))
  ]
  match_cases secret _ now step h = absurd (ground arith)

module _ (hmac : Text → Text → Text) (base32 : Text → Option Text) where
  -- What the factor and the code are where the code is accepted.
  pub record Accepts (code : Value) (now : ℤ) (f f' : Factor) : Type 0 where
    pub secret : Text
    pub step : ℤ
    pub decoded : decode_secret base32 f.secret ≡ some secret
    pub valid : validated base32 f ≡ true
    pub in_time : has_expired f now ≡ false
    pub unlocked : is_locked f now ≡ false
    pub match : matched_step hmac secret code now ≡ some step
    pub later : earlier (as_int f.last_accepted_step) step ≡ true
    pub result : f' ≡ accept now step f

  decide-accepted :
      (now : ℤ) (f f' : Factor) (m : Option ℤ)
      → decide now f m ≡ (f', accepted)
      → (step : ℤ) × (m ≡ some step) × (f' ≡ accept now step f)
  unfolding record_failure
  decide-accepted now f f' none h = absurd ground arith
  decide-accepted now f f' (some step) h = (step, refl, cc)

  attempt-Accepts :
      (code : Value) (now : ℤ) (f f' : Factor) (secret : Text)
      → validated base32 f ≡ true
      → has_expired f now ≡ false
      → is_locked f now ≡ false
      → decode_secret base32 f.secret ≡ some secret
      → decide now f (fresh (as_int f.last_accepted_step) (matched_step hmac secret code now))
        ≡ (f', accepted)
      → Accepts code now f f'
  attempt-Accepts code now f f' secret v e l d h =
      let (step, m, r) = decide-accepted now f f' _ h in
      let (m', later) =
        fresh_cases (as_int f.last_accepted_step) (matched_step hmac secret code now) step m in
      record {
        secret = secret;
        step = step;
        decoded = d;
        valid = v;
        in_time = e;
        unlocked = l;
        match = m';
        later = later;
        result = r;
      }

  pub verify-Accepts :
      (code : Value) (now : ℤ) (f f' : Factor)
      → verify hmac base32 code now f ≡ some (f', accepted)
      → Accepts code now f f'
  unfolding verify
  verify-Accepts code now f f' h = elim (Bool-cases (validated base32 f)) [
    | inr e ↦ absurd (ground (arith, e))
    | inl e ↦ elim (Bool-cases (has_expired f now)) [
      | inl g ↦ absurd (ground (arith, e, g))
      | inr g ↦ elim (Bool-cases (is_locked f now)) [
        | inl k ↦ absurd (ground (arith, e, g, k))
        | inr k ↦ elim (Option-cases (decode_secret base32 f.secret)) [
          | inl d ↦ absurd (ground (arith, e, g, k, d))
          | inr (secret, d) ↦
              attempt-Accepts code now f f' secret e g k d (ground (arith, e, g, k, d))
        ]
      ]
    ]
  ]

-- What a factor holds once it accepted a code.
accept_fields :
    (s : Option Status) (now : ℤ) (g : Factor)
    → ((activate s now g).last_accepted_step ≡ g.last_accepted_step)
      × ((activate s now g).failures ≡ g.failures)
      × ((activate s now g).locked_until ≡ g.locked_until)
accept_fields none now g = (refl, refl, refl)
accept_fields (some pending) now g = (refl, refl, refl)
accept_fields (some active) now g = (refl, refl, refl)

last-accept :
    (now step : ℤ) (f f' : Factor) → f' ≡ accept now step f → f'.last_accepted_step ≡ int step
last-accept now step f f' h =
    ap (λ g. g.last_accepted_step) h ∙ (accept_fields (status_of f.status) now _).0

module _ (hmac : Text → Text → Text) (base32 : Text → Option Text) where
  -- What an accepted code is, and the factor that accepted it.
  pub record Sound (code : Value) (now : ℤ) (f f' : Factor) : Type 0 where
    pub secret : Text
    pub digits : Text
    pub step : ℤ
    pub unlocked : is_locked f now ≡ false
    pub decoded : decode_secret base32 f.secret ≡ some secret
    pub presented : code ≡ text digits
    pub well_formed : is_code digits ≡ true
    pub same : digits ≡ hotp hmac secret step
    pub near :
        (step ≡ step_at now +ℤ negsuc 0) ⊎ ((step ≡ step_at now) ⊎ (step ≡ step_at now +ℤ pos 1))
    pub later : earlier (as_int f.last_accepted_step) step ≡ true
    pub last : f'.last_accepted_step ≡ int step
    pub failures : f'.failures ≡ int (pos 0)
    pub lock : f'.locked_until ≡ null

  -- One attempt, whatever comes of it.
  abbrev pub after : Factor → Option (Factor × Verification) → Factor
  after f none = f
  after f (some (f', v)) = f'

  unfoldable pub attempts : List (Value × ℤ) → Factor → Factor
  attempts [] f = f
  attempts ((code, now) ∷ later) f = attempts later (after f (verify hmac base32 code now f))

  failure-last :
      (now : ℤ) (f : Factor) → (record_failure now f).0.last_accepted_step ≡ f.last_accepted_step
  unfolding record_failure
  failure-last now f = ground arith

  decide-last :
      (now : ℤ) (f : Factor) (matched : Option ℤ) (step : ℤ)
      → earlier
          (as_int (decide now f (fresh (as_int f.last_accepted_step) matched)).0.last_accepted_step)
          step
        ≡ true
      → earlier (as_int f.last_accepted_step) step ≡ true
  decide-last now f matched step h =
      elim (Option-cases (fresh (as_int f.last_accepted_step) matched)) [
        | inl e ↦ ground (arith, e, failure-last now f)
        | inr (s, e) ↦
            let l =
              (accept_fields (status_of f.status) now (record f {
                last_accepted_step = int s;
                failures = int (pos 0);
                locked_until = null;
              })).0 in
            ground (arith, e, l, fresh_cases (as_int f.last_accepted_step) matched s e)
      ]

  -- An attempt leaves a factor as it is or decides on a step.
  pub verify_cases :
      (code : Value) (now : ℤ) (f : Factor)
      → (after f (verify hmac base32 code now f) ≡ f)
        ⊎ ((validated base32 f ≡ true)
            × (matched : Option ℤ) × (verify hmac base32 code now f
                ≡ some (decide now f (fresh (as_int f.last_accepted_step) matched))))
  unfolding verify
  verify_cases code now f = elim (Bool-cases (validated base32 f)) [
    | inr e ↦ inl (rw e refl)
    | inl e ↦ elim (Bool-cases (has_expired f now)) [
      | inl g ↦ inl (rw (e, g) refl)
      | inr g ↦ elim (Bool-cases (is_locked f now)) [
        | inl k ↦ inl (rw (e, g, k) refl)
        | inr k ↦ elim (Option-cases (decode_secret base32 f.secret)) [
          | inl d ↦ inl (rw (e, g, k, d) refl)
          | inr (secret, d) ↦ inr (e, matched_step hmac secret code now, rw (e, g, k, d) refl)
        ]
      ]
    ]
  ]

  attempt-last :
      (code : Value) (now : ℤ) (f : Factor) (step : ℤ)
      → earlier (as_int (after f (verify hmac base32 code now f)).last_accepted_step) step ≡ true
      → earlier (as_int f.last_accepted_step) step ≡ true
  attempt-last code now f step h = elim (verify_cases code now f) [
    | inl e ↦ subst (λ g. earlier (as_int g.last_accepted_step) step ≡ true) e h
    | inr (valid, matched, e) ↦
        decide-last now f matched step
          (subst (λ r. earlier (as_int (after f r).last_accepted_step) step ≡ true) e h)
  ]

  attempts-last :
      (tries : List (Value × ℤ)) (f : Factor) (step : ℤ)
      → earlier (as_int (attempts tries f).last_accepted_step) step ≡ true
      → earlier (as_int f.last_accepted_step) step ≡ true
  unfolding attempts
  attempts-last [] f step h = h
  attempts-last ((code, now) ∷ tries) f step h =
      attempt-last code now f step (attempts-last tries _ step h)

  -- An accepted code is a code of six digits of the factor's secret, for a step next to the present
  -- one and later than the last accepted one, while the factor is not locked; the factor then holds
  -- that step, no failures and no lock.
  pub verify-Sound :
      (code : Value) (now : ℤ) (f f' : Factor)
      → verify hmac base32 code now f ≡ some (f', accepted)
      → Sound code now f f'
  verify-Sound code now f f' h =
      let a = verify-Accepts hmac base32 code now f f' h in
      let (digits, presented, well_formed, same, near) =
        match_cases hmac a.secret code now a.step a.match in
      let (l, n, k) = accept_fields (status_of f.status) now (record f {
        last_accepted_step = int a.step;
        failures = int (pos 0);
        locked_until = null;
      }) in
      record {
        secret = a.secret;
        digits = digits;
        step = a.step;
        unlocked = a.unlocked;
        decoded = a.decoded;
        presented = presented;
        well_formed = well_formed;
        same = same;
        near = near;
        later = a.later;
        last = ap (λ g. g.last_accepted_step) a.result ∙ l;
        failures = ap (λ g. g.failures) a.result ∙ n;
        lock = ap (λ g. g.locked_until) a.result ∙ k;
      }

  -- Whatever attempts follow the acceptance of a step, a later attempt is accepted only for a later
  -- step.
  pub never_twice :
      (code : Value) (now : ℤ) (f f' : Factor) (tries : List (Value × ℤ)) (s : ℤ)
      → f.last_accepted_step ≡ int s
      → verify hmac base32 code now (attempts tries f) ≡ some (f', accepted)
      → (t : ℤ) × (f'.last_accepted_step ≡ int t) × (ltb_ℤ s t ≡ true)
  never_twice code now f f' tries s e h =
      let a = verify-Accepts hmac base32 code now (attempts tries f) f' h in
      let l = attempts-last tries f a.step a.later in
      (
        a.step,
        last-accept now a.step (attempts tries f) f' a.result,
        subst (λ v. earlier (as_int v) a.step ≡ true) e l,
      )
