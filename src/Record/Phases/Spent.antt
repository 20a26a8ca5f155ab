-- ===== src/Record/Phases/Spent.antt =====
-- Spending a recovery code keeps the record in a state.
use shimpz_admin.Prelude.{
  ◌≡◌, refl, sym, subst, ap, ◌∙◌, inl, inr, Bool, true, false, ◌&&◌, Option, none, some, Text,
  Bool-cases, arith, if◌then◌else◌,
}
use shimpz_admin.Prelude.Int.{ℤ, pos, ltb_ℤ}
use shimpz_admin.Signin.Totp.{text, Verification}
use shimpz_admin.Signin.Recovery.{CodeSet, Candidate, hex64, spend}
use shimpz_admin.Record.{totp, ok, err, ◌>>=◌, Member, missing, unfit, held, Data, Libraries}
use shimpz_admin.Record.State.{AuthState, uninitialized, authentication_state}
use shimpz_admin.Record.Factors.{
  Enrollment, has_codes, generation, second_factor_refused, is_expected, is_salt, salt_of,
  is_locked_in, codes_in, spent, spend_codes, spend_unless, spend_under, spend_in, spend_code,
}
use shimpz_admin.Record.Phases.{IsReady, state_cases, ready-IsFactor, HasRoom}
use shimpz_admin.Record.Phases.Attempts.{Moved, stay, data_of, refused-IsReady}
use shimpz_admin.Record.Phases.Codes.{
  spend_unused, spend_used, same_int, recoded-IsReady, refusal-Moved, used-Moved,
}

-- What spending a code needs of the record, of the time and of what is drawn.
pub record Fits (now : ℤ) (secret : Text) (d : Data) : Type 0 where
  pub room : HasRoom d
  pub hex_secret : hex64 (text secret) ≡ true
  pub dated : ltb_ℤ now (pos 1) ≡ false

unset_codes : has_codes uninitialized ≡ true → ⊥
unset_codes h = ground (arith, h)

module _ (X : Libraries) (derived : Candidate) (expected : ℤ) (fresh secret : Text) (now : ℤ) where
  spent-Moved :
      (d d' : Data) (s : AuthState) (codes : CodeSet) (r : Verification × Option Enrollment)
      (o : Option (CodeSet × Bool))
      → IsReady X d s
      → has_codes s ≡ true
      → Fits now secret d
      → expected ≡ generation d
      → d.recovery_codes ≡ held (some codes)
      → spend derived now codes ≡ o
      → spent X fresh secret expected now d o ≡ ok (d', r)
      → Moved X s d'
  spent-Moved d d' s codes r none i c k x e g h = absurd (ground (arith, h))
  spent-Moved d d' s codes r (some (codes', false)) i c k x e g h =
      let same = spend_unused derived now codes codes' g in
      let i' = recoded-IsReady X d s codes' i (e ∙ ap (λ y. held (some y)) (sym same)) in
      refusal-Moved X now (second_factor_refused (record d { recovery_codes = held (some codes') }))
        d' s d.totp r (refused-IsReady X _ s i') (ready-IsFactor X d s i) h
  spent-Moved d d' s codes r (some (codes', true)) i c k x e g h =
      used-Moved X d d' s codes' fresh secret now r _ i c k.room k.hex_secret
        (spend_used derived now codes codes' k.dated g) refl
        (subst (λ y. spent X fresh secret y now d (some (codes', true)) ≡ ok (d', r)) x h)

  codes-Moved :
      (d d' : Data) (s : AuthState) (m : Member (Option CodeSet))
      (r : Verification × Option Enrollment)
      → IsReady X d s
      → has_codes s ≡ true
      → Fits now secret d
      → expected ≡ generation d
      → d.recovery_codes ≡ m
      → spend_codes X derived expected fresh secret now d (codes_in m) ≡ ok (d', r)
      → Moved X s d'
  codes-Moved d d' s missing r i c k x e h = absurd (ground (arith, h))
  codes-Moved d d' s unfit r i c k x e h = absurd (ground (arith, h))
  codes-Moved d d' s (held none) r i c k x e h = absurd (ground (arith, h))
  codes-Moved d d' s (held (some codes)) r i c k x e h =
      spent-Moved d d' s codes r _ i c k x e refl h

  unless-Moved :
      (d d' : Data) (s : AuthState) (b : Bool) (r : Verification × Option Enrollment)
      → IsReady X d s
      → has_codes s ≡ true
      → Fits now secret d
      → expected ≡ generation d
      → spend_unless X derived expected fresh secret now d b ≡ ok (d', r)
      → Moved X s d'
  unless-Moved d d' s true r i c k x h =
      subst (Moved X s) (ap (data_of d) h) (stay X s _ (refused-IsReady X d s i))
  unless-Moved d d' s false r i c k x h = codes-Moved d d' s d.recovery_codes r i c k x refl h

  under-Moved :
      (d d' : Data) (s : AuthState) (b : Bool) (r : Verification × Option Enrollment)
      → IsReady X d s
      → has_codes s ≡ true
      → Fits now secret d
      → (b ≡ true → expected ≡ generation d)
      → spend_under X derived expected fresh secret now d b ≡ ok (d', r)
      → Moved X s d'
  under-Moved d d' s false r i c k x h = subst (Moved X s) (ap (data_of d) h) (stay X s d i)
  under-Moved d d' s true r i c k x h =
      unless-Moved d d' s (is_locked_in d.totp now) r i c k (x refl) h

  in-Moved :
      (d d' : Data) (s : AuthState) (r : Verification × Option Enrollment)
      → authentication_state X d ≡ ok s
      → Fits now secret d
      → spend_in X derived expected fresh secret now d s ≡ ok (d', r)
      → Moved X s d'
  in-Moved d d' s r e k h = elim (Bool-cases (has_codes s)) [
    | inr c ↦ absurd (ground (arith, h, c))
    | inl c ↦ elim (state_cases X d s e) [
      | inl (_, u) ↦ absurd (unset_codes (subst (λ y. has_codes y ≡ true) u c))
      | inr i ↦
          let b =
            is_expected (some expected) (generation d)
            && is_salt (salt_of d.recovery_codes) derived.salt in
          let g : spend_under X derived expected fresh secret now d b ≡ ok (d', r) =
            subst
              (λ y.
                (if y then spend_under X derived expected fresh secret now d b else err totp)
                ≡ ok (d', r))
              c h in
          under-Moved d d' s b r i c k (λ t. same_int expected (generation d) (ground (arith, t))) g
    ]
  ]

  -- Spending a code.
  pub spend-Moved :
      (d d' : Data) (s : AuthState) (r : Verification × Option Enrollment)
      → authentication_state X d ≡ ok s
      → Fits now secret d
      → spend_code X derived expected fresh secret now d ≡ ok (d', r)
      → Moved X s d'
  unfolding spend_code
  spend-Moved d d' s r e k h =
      in-Moved d d' s r e k
        (subst (λ x. (x >>= spend_in X derived expected fresh secret now d) ≡ ok (d', r)) e h)
