-- ===== src/Record/Phases/Changes.antt =====
-- Setup, resuming an enrollment, new codes and acknowledgements keep the record in a state.
use shimpz_admin.Prelude.{
  ℕ, ◌≤◌, ◌<◌, ◌^◌, ◌≡◌, refl, sym, subst, ap, ◌∙◌, ◌⊎◌, inl, inr, ◌&&◌, Bool, true, false, ◌||◌,
  Option, none, some, Text, Bool-cases, then_of, else_of, arith,
}
use shimpz_admin.Prelude.Int.{ℤ, pos, ◌+ℤ◌, ◌-ℤ◌, wrap}
use shimpz_admin.Signin.Totp.{Value, int, text, Factor, status_of, new_record, enrollment, resume}
use shimpz_admin.Signin.Recovery.{CodeSet, hex64, validated}
use shimpz_admin.Signin.Password.{password_set}
use shimpz_admin.Record.{ok, ◌>>=◌, Member, missing, unfit, held, Failures, Data, Libraries}
use shimpz_admin.Record.State.{
  AuthState, uninitialized, enrollment_required, configured, has_value, counters_fit, in_counter,
  max_second_factor_failures, authentication_state, validated_passkeys,
}
use shimpz_admin.Record.Factors.{
  Drawn, Enrollment, is_state, next_generation, factor_in, begun, setup_unset, set_up, resumed,
  resume_in, resume_enrollment, replace_in, replace_codes, not_negative, acknowledged,
  acknowledge_in, acknowledge,
}
use shimpz_admin.Signin.Token.{Evidence}
use shimpz_admin.Record.Operations.{log_out}
use shimpz_admin.Record.Phases.{
  Follows, IsReady, state_cases, IsFactor-status, ready-IsFactor, same_status-IsReady,
  counters-IsReady, HasRoom, next-positive,
}
use shimpz_admin.Record.Phases.Attempts.{Moved, stay, data_of, counter_value}
use shimpz_admin.Record.Phases.Codes.{enrollment-valid}
use shimpz_admin.Record.Phases.Commits.{refused_error}
use shimpz_admin.Record.Phases.Registered.{both_true}
use shimpz_admin.Signin.Totp as Totp
use shimpz_admin.Signin.Totp.{is_pending, enrollment_ttl_seconds}

-- What setup needs of what it is given and draws.
pub record IsDrawn (X : Libraries) (verifier : Text) (drawn : Drawn) : Type 0 where
  pub password : password_set X.hex (some (text verifier)) ≡ some true
  pub hex_secret : hex64 (text drawn.secret) ≡ true
  pub hex_user : hex64 (text drawn.user_id) ≡ true

required_state : (s t : AuthState) → is_state s t ≡ true → s ≡ t
required_state s t h = ground (arith, h)

not_unset : (s : AuthState) → s ≡ uninitialized → is_state s enrollment_required ≡ true → ⊥
not_unset s e h = ground (arith, e, h)

not_configured : (s : AuthState) → s ≡ uninitialized → is_state s configured ≡ true → ⊥
not_configured s e h = ground (arith, e, h)

abbrev renewed : ℤ → Factor → Factor
renewed now f = record f {
  resumed_at = int now;
  expires_at = int (wrap (now +ℤ pos enrollment_ttl_seconds));
}

left_in_counter :
    (b count : ℕ)
    → b ≤ max_second_factor_failures
    → count < 2 ^ 63
    → in_counter (int (not_negative (wrap (pos b -ℤ pos count)))) ≡ true
unfolding ◌-ℤ◌
left_in_counter b count l m = ground (arith, l, m)

unset_out :
    (secret : Text) (valid : Option Evidence) (d d' : Data) (r : Bool)
    → log_out secret valid d (ok uninitialized) ≡ ok (d', r)
    → d' ≡ d
unset_out secret none d d' r h = sym (ap (data_of d) h)
unset_out secret (some v) d d' r h = sym (ap (data_of d) h)

module _ (X : Libraries) where
  begun-Moved :
      (verifier : Text) (drawn : Drawn) (now : ℤ) (d d' : Data) (r : Enrollment) (o : Option Text)
      → IsDrawn X verifier drawn
      → enrollment X.base32 (new_record drawn.totp_secret now) ≡ o
      → begun verifier drawn now d o ≡ ok (d', r)
      → Moved X uninitialized d'
  unfolding validated_passkeys
  begun-Moved verifier drawn now d d' r none k e h = absurd (refused_error h)
  begun-Moved verifier drawn now d d' r (some shown) k e h =
      let (v, q) = enrollment-valid X.base32 (new_record drawn.totp_secret now) shown e in
      subst (Moved X uninitialized) (ap (data_of d) h) (record {
        state = enrollment_required;
        follows = Follows.begins;
        is_set = record {
          base = record {
            password = k.password;
            version = refl;
            positive = refl;
            user = k.hex_user;
            secret = k.hex_secret;
            keys = refl;
            counters = refl;
          };
          factor = rw (v, q) refl;
        };
      })

  unset-Moved :
      (verifier : Text) (drawn : Drawn) (now : ℤ) (d d' : Data) (r : Enrollment)
      → IsDrawn X verifier drawn
      → setup_unset X verifier drawn now d (some false) ≡ ok (d', r)
      → Moved X uninitialized d'
  unset-Moved verifier drawn now d d' r k h =
      let partial =
        has_value d.session_secret
        || has_value d.supervisor_id
        || has_value d.supervisor_signing_key
        || has_value d.created in
      elim (Bool-cases partial) [
        | inl b ↦ absurd (refused_error (then_of partial _ _ b h))
        | inr b ↦ begun-Moved verifier drawn now d d' r _ k refl (else_of partial _ _ b h)
      ]

  -- Setup.
  pub set_up-Moved :
      (verifier : Text) (drawn : Drawn) (now : ℤ) (d d' : Data) (s : AuthState) (r : Enrollment)
      → authentication_state X d ≡ ok s
      → IsDrawn X verifier drawn
      → set_up X verifier drawn now d ≡ ok (d', r)
      → Moved X s d'
  unfolding set_up
  set_up-Moved verifier drawn now d d' s r e k h = elim (state_cases X d s e) [
    | inl (p, u) ↦
        subst (λ x. Moved X x d') (sym u)
          (unset-Moved verifier drawn now d d' r k
            (subst (λ o. setup_unset X verifier drawn now d o ≡ ok (d', r)) p h))
    | inr i ↦ absurd (
        refused_error
          (subst (λ o. setup_unset X verifier drawn now d o ≡ ok (d', r)) i.base.password h))
  ]

  resume_cases :
      (now : ℤ) (f : Factor)
      → (resume X.base32 now f ≡ (f, none))
        ⊎ ((f' : Factor) × (resume X.base32 now f ≡ (f', enrollment X.base32 f')))
  unfolding resume
  resume_cases now f =
      elim (Bool-cases (Totp.validated X.base32 f && is_pending (status_of f.status))) [
        | inl b ↦ inr (renewed now f, rw b refl)
        | inr b ↦ inl (rw b refl)
      ]

  renewed-Moved :
      (d d' : Data) (f : Factor) (o : Option Text) (r : Enrollment)
      → IsReady X d enrollment_required
      → enrollment X.base32 f ≡ o
      → resumed d (f, o) ≡ ok (d', r)
      → Moved X enrollment_required d'
  renewed-Moved d d' f none r i e h = absurd (refused_error h)
  renewed-Moved d d' f (some shown) r i e h =
      let (v, q) = enrollment-valid X.base32 f shown e in
      subst (Moved X enrollment_required) (ap (data_of d) h) (
        stay X enrollment_required _
          (same_status-IsReady X d enrollment_required f i (IsFactor-status X f _ v q)))

  resumed-Moved :
      (now : ℤ) (d d' : Data) (f : Factor) (r : Enrollment)
      → IsReady X d enrollment_required
      → resumed d (resume X.base32 now f) ≡ ok (d', r)
      → Moved X enrollment_required d'
  resumed-Moved now d d' f r i h = elim (resume_cases now f) [
    | inl e ↦ absurd (refused_error (subst (λ p. resumed d p ≡ ok (d', r)) e h))
    | inr (f', e) ↦ renewed-Moved d d' f' _ r i refl (subst (λ p. resumed d p ≡ ok (d', r)) e h)
  ]

  resume_in-Moved :
      (now : ℤ) (d d' : Data) (s : AuthState) (r : Enrollment)
      → authentication_state X d ≡ ok s
      → resume_in X now d s ≡ ok (d', r)
      → Moved X s d'
  resume_in-Moved now d d' s r e h = elim (Bool-cases (is_state s enrollment_required)) [
    | inr b ↦ absurd (refused_error (else_of (is_state s enrollment_required) _ _ b h))
    | inl b ↦
        let same = required_state s enrollment_required b in
        elim (state_cases X d s e) [
          | inl (_, u) ↦ absurd (not_unset s u b)
          | inr i ↦
              let i' = subst (IsReady X d) same i in
              let p = ready-IsFactor X d enrollment_required i' in
              subst (λ x. Moved X x d') (sym same)
                (resumed-Moved now d d' p.factor r i' (
                  subst (λ m. (factor_in m >>= λ f. resumed d (resume X.base32 now f)) ≡ ok (d', r))
                    p.is_held (then_of (is_state s enrollment_required) _ _ b h)))
        ]
  ]

  -- A resumed enrollment.
  pub resume-Moved :
      (now : ℤ) (d d' : Data) (s : AuthState) (r : Enrollment)
      → authentication_state X d ≡ ok s
      → resume_enrollment X now d ≡ ok (d', r)
      → Moved X s d'
  unfolding resume_enrollment
  resume-Moved now d d' s r e h =
      resume_in-Moved now d d' s r e (subst (λ x. (x >>= resume_in X now d) ≡ ok (d', r)) e h)

  replaced-IsReady :
      (d : Data) (codes : CodeSet)
      → IsReady X d configured
      → HasRoom d
      → validated codes ≡ true
      → IsReady X
          (record d {
            recovery_codes = held (some codes);
            factor_generation = some (int (next_generation d));
          })
          configured
  replaced-IsReady d codes i k v =
      let b = i.base in
      let p = ready-IsFactor X d configured i in
      let (n, g, q) = next-positive d b.positive k in
      record {
        base = record {
          password = b.password;
          version = b.version;
          positive = rw q (ground arith);
          user = b.user;
          secret = b.secret;
          keys = b.keys;
          counters = b.counters;
        };
        factor = rw (p.is_held, p.valid, p.status_fits, v) refl;
      }

  replace_in-Moved :
      (codes : CodeSet) (d d' : Data) (s : AuthState) (r : Unit {0})
      → authentication_state X d ≡ ok s
      → HasRoom d
      → validated codes ≡ true
      → replace_in codes d s ≡ ok (d', r)
      → Moved X s d'
  replace_in-Moved codes d d' s r e k v h = elim (Bool-cases (is_state s configured)) [
    | inr b ↦ absurd (refused_error (else_of (is_state s configured) _ _ b h))
    | inl b ↦
        let same = required_state s configured b in
        elim (state_cases X d s e) [
          | inl (_, u) ↦ absurd (not_configured s u b)
          | inr i ↦
              subst (λ x. Moved X x d') (sym same)
                (subst (Moved X configured)
                  (ap (data_of d) (then_of (is_state s configured) _ _ b h))
                  (stay X configured _ (replaced-IsReady d codes (subst (IsReady X d) same i) k v)))
        ]
  ]

  -- New recovery codes.
  pub replace-Moved :
      (codes : CodeSet) (d d' : Data) (s : AuthState) (r : Unit {0})
      → authentication_state X d ≡ ok s
      → HasRoom d
      → validated codes ≡ true
      → replace_codes X codes d ≡ ok (d', r)
      → Moved X s d'
  unfolding replace_codes
  replace-Moved codes d d' s r e k v h =
      replace_in-Moved codes d d' s r e k v
        (subst (λ x. (x >>= replace_in codes d) ≡ ok (d', r)) e h)

  acknowledged-fit :
      (count : ℕ) (m : Member Failures)
      → count < 2 ^ 63
      → counters_fit m ≡ true
      → counters_fit (acknowledged (pos count) m) ≡ true
  acknowledged-fit count missing c h = h
  acknowledged-fit count unfit c h = h
  acknowledged-fit count (held f) c h =
      let (first, second) =
        both_true (in_counter f.since_sign_in) (in_counter f.unacknowledged) h in
      let (b, e, l) = counter_value f.unacknowledged second in
      rw (e, first) (left_in_counter b count l c)

  acknowledge_in-Moved :
      (count : ℕ) (d d' : Data) (s : AuthState) (r : Unit {0})
      → count < 2 ^ 63
      → authentication_state X d ≡ ok s
      → acknowledge_in (pos count) d s ≡ ok (d', r)
      → Moved X s d'
  acknowledge_in-Moved count d d' s r c e h = elim (Bool-cases (is_state s configured)) [
    | inr b ↦ absurd (refused_error (else_of (is_state s configured) _ _ b h))
    | inl b ↦ elim (state_cases X d s e) [
      | inl (_, u) ↦ absurd (not_configured s u b)
      | inr i ↦ subst (Moved X s) (ap (data_of d) (then_of (is_state s configured) _ _ b h)) (
          stay X s _ (
            counters-IsReady X d s (acknowledged (pos count) d.second_factor_failures) i
              (acknowledged-fit count d.second_factor_failures c i.base.counters)))
    ]
  ]

  -- An acknowledgement.
  pub acknowledge-Moved :
      (count : ℕ) (d d' : Data) (s : AuthState) (r : Unit {0})
      → count < 2 ^ 63
      → authentication_state X d ≡ ok s
      → acknowledge X (pos count) d ≡ ok (d', r)
      → Moved X s d'
  unfolding acknowledge
  acknowledge-Moved count d d' s r c e h =
      acknowledge_in-Moved count d d' s r c e
        (subst (λ x. (x >>= acknowledge_in (pos count) d) ≡ ok (d', r)) e h)

  resecreted-IsReady :
      (d : Data) (s : AuthState) (secret : Text)
      → IsReady X d s
      → hex64 (text secret) ≡ true
      → IsReady X (record d { session_secret = some (text secret) }) s
  resecreted-IsReady d s secret h x =
      let b = h.base in
      record {
        base = record {
          password = b.password;
          version = b.version;
          positive = b.positive;
          user = b.user;
          secret = x;
          keys = b.keys;
          counters = b.counters;
        };
        factor = h.factor;
      }

  logged_out-Moved :
      (secret : Text) (valid : Option Evidence) (d d' : Data) (s : AuthState) (r : Bool)
      → IsReady X d s
      → hex64 (text secret) ≡ true
      → log_out secret valid d (ok s) ≡ ok (d', r)
      → Moved X s d'
  logged_out-Moved secret (some v) d d' configured r i x h =
      subst (Moved X configured) (ap (data_of d) h)
        (stay X configured _ (resecreted-IsReady d configured secret i x))
  logged_out-Moved secret none d d' s r i x h = subst (Moved X s) (ap (data_of d) h) (stay X s d i)
  logged_out-Moved secret (some v) d d' s r i x h =
      subst (Moved X s) (ap (data_of d) h) (stay X s d i)

  -- A sign-out.
  pub log_out-Follows :
      (secret : Text) (valid : Option Evidence) (d d' : Data) (s : AuthState) (r : Bool)
      → authentication_state X d ≡ ok s
      → hex64 (text secret) ≡ true
      → log_out secret valid d (authentication_state X d) ≡ ok (d', r)
      → (d' ≡ d) ⊎ Moved X s d'
  log_out-Follows secret valid d d' s r e x h = elim (state_cases X d s e) [
    | inr i ↦ inr (
        logged_out-Moved secret valid d d' s r i x
          (subst (λ o. log_out secret valid d o ≡ ok (d', r)) e h))
    | inl (_, u) ↦ inl (
        unset_out secret valid d d' r
          (subst (λ o. log_out secret valid d o ≡ ok (d', r)) (e ∙ ap ok u) h))
  ]
