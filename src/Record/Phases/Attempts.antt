-- ===== src/Record/Phases/Attempts.antt =====
-- Verified attempts keep the record in a state, and move it only as they may.
use shimpz_admin.Prelude.{
  ℕ, ◌+◌, ◌<◌, ◌≤◌, ◌^◌, ◌≡◌, refl, sym, subst, ap, ◌∙◌, inl, inr, Bool, true, false, not, Option,
  none, some, Text, Bool-cases, arith,
}
use shimpz_admin.Prelude.Int.{ℤ, pos, negsuc, ◌+ℤ◌, ltb_ℤ, add-pos, wrap, wrap_small}
use shimpz_admin.Signin.Totp.{
  Value, int, text, as_int, Factor, Verification, accepted, invalid, locked, expired, changed,
  Status, active, status_of, verify,
}
use shimpz_admin.Signin.Totp as Totp
use shimpz_admin.Signin.Totp.Stored.{verify-validated}
use shimpz_admin.Signin.Totp.Statuses.{Settles, verify-Settles}
use shimpz_admin.Signin.Recovery.{CodeSet, hex64}
use shimpz_admin.Record.{
  Result, ok, err, ◌>>=◌, Member, missing, unfit, held, Failures, Data, Libraries,
}
use shimpz_admin.Record.State.{
  AuthState, uninitialized, configured, max_second_factor_failures, in_counter, counters_fit,
  authentication_state,
}
use shimpz_admin.Record.Factors.{
  Ceremony, setup, recovery, login, operation, enrolls, requires, is_state, generation,
  next_generation, rotated, at_most, refusal_counted, reported, second_factor_refused, signed_in,
  valid_codes, attempted, completed, verified, is_expected, factor_in, attempt_factor,
  attempt_under, attempt_in, attempt_totp,
}
use shimpz_admin.Record.Phases.{
  Follows, IsReady, IsReady-state, state_cases, IsFactor, IsFactor-status, ready-IsFactor,
  status_in, same_status-IsReady, counters-IsReady, rotated-IsBase, HasRoom, next-positive,
}
use shimpz_admin.Record.Phases as Phases

pub counter_value :
    (v : Value)
    → in_counter v ≡ true
    → (n : ℕ) × (v ≡ int (pos n)) × (n ≤ max_second_factor_failures)
counter_value (int (pos n)) h = (n, refl, ground (arith, h))
counter_value (int (negsuc n)) h = absurd (ground (arith, h))
counter_value _ h = absurd (ground (arith, h))

counter_sum : (a b : ℕ) → a + b < 2 ^ 63 → in_counter (int (at_most (wrap (pos a +ℤ pos b)))) ≡ true
counter_sum a b h = rw (add-pos, wrap_small (a + b) h) (ground arith)

pub refusal_counted-fit :
    (m : Member Failures) → counters_fit m ≡ true → counters_fit (refusal_counted m) ≡ true
refusal_counted-fit missing h = h
refusal_counted-fit unfit h = h
refusal_counted-fit (held f) h =
    let (a, e, l) = counter_value f.since_sign_in (ground (arith, h)) in
    let s = counter_sum a 1 (omega (arith, l)) in rw e (ground (arith, h, s))

pub reported-fit : (m : Member Failures) → counters_fit m ≡ true → counters_fit (reported m) ≡ true
reported-fit missing h = h
reported-fit unfit h = h
reported-fit (held f) h =
    let (a, e, l) = counter_value f.since_sign_in (ground (arith, h)) in
    let (b, g, k) = counter_value f.unacknowledged (ground (arith, h)) in
    let s = counter_sum b a (omega (arith, l, k)) in rw (e, g) (ground (arith, s))

module _ (X : Libraries) where
  pub refused-IsReady :
      (d : Data) (s : AuthState) → IsReady X d s → IsReady X (second_factor_refused d) s
  refused-IsReady d s h =
      counters-IsReady X d s (refusal_counted d.second_factor_failures) h
        (refusal_counted-fit d.second_factor_failures h.base.counters)

  pub signed_in-IsReady : (d : Data) (s : AuthState) → IsReady X d s → IsReady X (signed_in d) s
  signed_in-IsReady d s h =
      counters-IsReady X d s (reported d.second_factor_failures) h
        (reported-fit d.second_factor_failures h.base.counters)

  -- What a change leaves: a record in a state that may follow.
  pub record Moved (s : AuthState) (d' : Data) : Type 0 where
    pub state : AuthState
    pub follows : Follows s state
    pub is_set : IsReady X d' state

  pub stay : (s : AuthState) (d' : Data) → IsReady X d' s → Moved s d'
  stay s d' h = record { state = s; follows = Follows.stays s; is_set = h }

  exchanged-IsBase :
      (d : Data) (f : Factor) (m : Member Failures)
      → Phases.IsBase X d
      → counters_fit m ≡ true
      → Phases.IsBase X (record d { totp = held f; second_factor_failures = m })
  exchanged-IsBase d f m b e = record {
    password = b.password;
    version = b.version;
    positive = b.positive;
    user = b.user;
    secret = b.secret;
    keys = b.keys;
    counters = e;
  }

  -- An enrollment that completes.
  enrolled-IsReady :
      (d : Data) (f : Factor) (codes : Option CodeSet) (secret : Text)
      → Phases.IsBase X d
      → HasRoom d
      → Totp.validated X.base32 f ≡ true
      → status_of f.status ≡ some active
      → valid_codes codes ≡ true
      → hex64 (text secret) ≡ true
      → IsReady X
          (rotated
            (next_generation d)
            secret
            (record (signed_in (record d { totp = held f })) { recovery_codes = held codes }))
          configured
  enrolled-IsReady d f none secret b r v e c x = absurd (ground (arith, c))
  enrolled-IsReady d f (some codes) secret b r v e c x =
      let m = reported d.second_factor_failures in
      let b' = exchanged-IsBase d f m b (reported-fit d.second_factor_failures b.counters) in
      let (n, g, p) = next-positive d b.positive r in
      record {
        base =
            rotated-IsBase X (record d { totp = held f; second_factor_failures = m })
              (held (some codes)) (held f) (next_generation d) secret b' (rw p (ground arith)) x;
        factor = rw (v, e, c) refl;
      }

  -- What an attempt needs of the record and of what is drawn.
  pub record Fits (ceremony : Ceremony) (codes : Option CodeSet) (secret : Text) (d : Data)
      : Type 0 where
    pub room : HasRoom d
    pub hex_secret : hex64 (text secret) ≡ true
    pub codes_valid : enrolls ceremony ≡ true → valid_codes codes ≡ true

  accepted-Moved :
      (c : Ceremony) (codes : Option CodeSet) (secret : Text) (d : Data) (f : Factor)
      → IsReady X d (requires c)
      → Fits c codes secret d
      → Totp.validated X.base32 f ≡ true
      → status_of f.status ≡ some active
      → Moved
          (requires c)
          (completed c codes secret accepted (attempted c accepted (record d { totp = held f })))
  accepted-Moved setup codes secret d f h k v e = record {
    state = configured;
    follows = Follows.enrolls;
    is_set = enrolled-IsReady d f codes secret h.base k.room v e (k.codes_valid refl) k.hex_secret;
  }
  accepted-Moved recovery codes secret d f h k v e = record {
    state = configured;
    follows = Follows.enrolls_again;
    is_set = enrolled-IsReady d f codes secret h.base k.room v e (k.codes_valid refl) k.hex_secret;
  }
  accepted-Moved login codes secret d f h k v e =
      stay configured (signed_in (record d { totp = held f })) (
        signed_in-IsReady (record d { totp = held f }) configured
          (same_status-IsReady X d configured f h (IsFactor-status X f active v e)))
  accepted-Moved operation codes secret d f h k v e =
      stay configured (record d { totp = held f })
        (same_status-IsReady X d configured f h (IsFactor-status X f active v e))

  -- After any other result than an accepted code.
  attempted-Moved :
      (c : Ceremony) (codes : Option CodeSet) (secret : Text) (d : Data) (f : Factor)
      (r : Verification)
      → IsReady X d (requires c)
      → Fits c codes secret d
      → Totp.validated X.base32 f ≡ true
      → Settles (status_in (requires c)) f r
      → Moved (requires c) (completed c codes secret r (attempted c r (record d { totp = held f })))
  attempted-Moved c codes secret d f accepted h k v e = accepted-Moved c codes secret d f h k v e
  attempted-Moved c codes secret d f invalid h k v e =
      stay (requires c) _
        (refused-IsReady _ _ (same_status-IsReady X d (requires c) f h (IsFactor-status X f _ v e)))
  attempted-Moved c codes secret d f locked h k v e =
      stay (requires c) _
        (refused-IsReady _ _ (same_status-IsReady X d (requires c) f h (IsFactor-status X f _ v e)))
  attempted-Moved c codes secret d f expired h k v e =
      stay (requires c) _ (same_status-IsReady X d (requires c) f h (IsFactor-status X f _ v e))
  attempted-Moved c codes secret d f changed h k v e =
      stay (requires c) _ (same_status-IsReady X d (requires c) f h (IsFactor-status X f _ v e))

-- A factor that was created no later than now.
abbrev pub not_after : ℤ → Option ℤ → Bool
not_after now none = false
not_after now (some c) = not (ltb_ℤ now c)

abbrev pub created_by : ℤ → Member Factor → Bool
created_by now (held f) = not_after now (as_int f.created_at)
created_by now _ = false

created_value :
    (now : ℤ) (o : Option ℤ)
    → not_after now o ≡ true
    → (c : ℤ) × (o ≡ some c) × (ltb_ℤ now c ≡ false)
created_value now none h = absurd (ground (arith, h))
created_value now (some c) h = (c, refl, ground (arith, h))

-- The record that a change leaves.
abbrev pub data_of {ℓ} : {R : Type ℓ} → Data → Result (Data × R) → Data
data_of d (err e) = d
data_of d (ok (d', r)) = d'

never_unset : (c : Ceremony) → uninitialized ≡ requires c → ⊥
never_unset setup e = cc
never_unset recovery e = cc
never_unset login e = cc
never_unset operation e = cc

module _ (X : Libraries) (code : Value) (c : Ceremony) (expected : Option ℤ)
    (codes : Option CodeSet) (secret : Text) (now : ℤ) where
  required_set :
      (d : Data) (s : AuthState)
      → authentication_state X d ≡ ok s
      → s ≡ requires c
      → IsReady X d (requires c)
  required_set d s e same = elim (state_cases X d s e) [
    | inl (_, u) ↦ absurd (never_unset c (sym u ∙ same))
    | inr i ↦ subst (IsReady X d) same i
  ]

  tried-Moved :
      (d d' : Data) (r : Verification) (f : Factor) (o : Option (Factor × Verification))
      → IsReady X d (requires c)
      → Fits X c codes secret d
      → created_by now (held f) ≡ true
      → status_of f.status ≡ some (status_in (requires c))
      → verify X.hmac X.base32 code now f ≡ o
      → verified c codes secret d o ≡ ok (d', r)
      → Moved X (requires c) d'
  tried-Moved d d' r f none i k t e g h = absurd (ground (arith, h))
  tried-Moved d d' r f (some (f', r')) i k t e g h =
      let (at, a, b) = created_value now (as_int f.created_at) t in
      let v = verify-validated X.hmac X.base32 code now f f' r' at a b g in
      let q = verify-Settles X.hmac X.base32 (status_in (requires c)) code now f f' r' e g in
      let same : completed c codes secret r' (attempted c r' (record d { totp = held f' })) ≡ d' =
        ap (data_of d) h in
      subst (Moved X (requires c)) same (attempted-Moved X c codes secret d f' r' i k v q)

  under-Moved :
      (d d' : Data) (r : Verification) (b : Bool)
      → IsReady X d (requires c)
      → Fits X c codes secret d
      → created_by now d.totp ≡ true
      → attempt_under X code c codes secret now d b ≡ ok (d', r)
      → Moved X (requires c) d'
  under-Moved d d' r false i k t h =
      subst (Moved X (requires c)) (ap (data_of d) h) (stay X (requires c) d i)
  under-Moved d d' r true i k t h =
      let p = ready-IsFactor X d (requires c) i in
      tried-Moved d d' r p.factor _ i k (subst (λ m. created_by now m ≡ true) p.is_held t)
        p.status_fits refl
        (subst (λ m. attempt_factor X code c codes secret now d (factor_in m) ≡ ok (d', r))
          p.is_held h)

  in-Moved :
      (d d' : Data) (r : Verification) (s : AuthState)
      → authentication_state X d ≡ ok s
      → Fits X c codes secret d
      → created_by now d.totp ≡ true
      → attempt_in X code c expected codes secret now d s ≡ ok (d', r)
      → Moved X s d'
  in-Moved d d' r s e k t h = elim (Bool-cases (is_state s (requires c))) [
    | inr b ↦ absurd (ground (arith, h, b))
    | inl b ↦
        let same : s ≡ requires c = ground (arith, b) in
        let g : attempt_under X code c codes secret now d (is_expected expected (generation d))
            ≡ ok (d', r) =
          ground (arith, h, b) in
        subst (λ x. Moved X x d') (sym same) (under-Moved d d' r _ (required_set d s e same) k t g)
  ]

  -- An attempt.
  pub attempt-Moved :
      (d d' : Data) (r : Verification) (s : AuthState)
      → authentication_state X d ≡ ok s
      → Fits X c codes secret d
      → created_by now d.totp ≡ true
      → attempt_totp X code c expected codes secret now d ≡ ok (d', r)
      → Moved X s d'
  unfolding attempt_totp
  attempt-Moved d d' r s e k t h =
      in-Moved d d' r s e k t
        (subst (λ x. (x >>= attempt_in X code c expected codes secret now d) ≡ ok (d', r)) e h)
