-- ===== src/Record/Phases/Codes.antt =====
-- Spending and replacing recovery codes keep the record in a state.
use shimpz_admin.Prelude.{
  ℕ, ◌≡◌, refl, sym, subst, ap, ◌∙◌, inl, inr, true, false, Option, none, some, Text, Bool-cases,
  Option-cases, arith,
}
use shimpz_admin.Prelude.Int.{ℤ, pos, ltb_ℤ}
use shimpz_admin.Signin.Totp.{
  Value, text, int, Factor, Verification, accepted, locked, changed, Status, pending, active,
  status_of, new_record, enrollment, record_failure,
}
use shimpz_admin.Signin.Totp as Totp
use shimpz_admin.Signin.Totp.Stored.{failure-validated}
use shimpz_admin.Signin.Recovery.{
  CodeSet, Candidate, hex64, spend, last_match, text_or_empty, items_of, remaining, validated,
}
use shimpz_admin.Signin.Recovery.Spending.{spend-remaining}
use shimpz_admin.Record.{ok, Member, missing, unfit, held, Data, Libraries}
use shimpz_admin.Record.State.{
  AuthState, uninitialized, enrollment_required, configured, recovery_enrollment, recovery_required,
  is_int,
}
use shimpz_admin.Record.Factors.{
  Enrollment, has_codes, next_generation, rotated, refusal, replaced_factor,
}
use shimpz_admin.Record.Phases.{
  Follows, IsBase, IsReady, IsFactor, IsFactor-status, status_in, same_status-IsReady,
  rotated-IsBase, HasRoom, next-positive,
}
use shimpz_admin.Record.Phases.Attempts.{Moved, stay, data_of}

pub spend_unused :
    (derived : Candidate) (now : ℤ) (s s' : CodeSet)
    → spend derived now s ≡ some (s', false)
    → s' ≡ s
unfolding spend
spend_unused derived now s s' h = elim (Bool-cases (validated s)) [
  | inr e ↦ absurd (ground (arith, h, e))
  | inl e ↦
      elim (Option-cases (last_match (text_or_empty derived.digest) 0 (items_of s.stored) none)) [
        | inl m ↦ ground (arith, h, e, m)
        | inr (i, m) ↦ absurd (ground (arith, h, e, m))
      ]
]

remaining-validated : (s : CodeSet) (n : ℕ) → remaining s ≡ some n → validated s ≡ true
unfolding remaining
remaining-validated s n h = elim (Bool-cases (validated s)) [
  | inl e ↦ e
  | inr e ↦ absurd (ground (arith, h, e))
]

pub spend_used :
    (derived : Candidate) (now : ℤ) (s s' : CodeSet)
    → ltb_ℤ now (pos 1) ≡ false
    → spend derived now s ≡ some (s', true)
    → validated s' ≡ true
spend_used derived now s s' l h =
    let (n, _, e) = spend-remaining derived now s s' l h in remaining-validated s' n e

failure-status : (now : ℤ) (f : Factor) → (record_failure now f).0.status ≡ f.status
unfolding record_failure
failure-status now f = ground arith

pub enrollment-valid :
    (base32 : Text → Option Text) (f : Factor) (shown : Text)
    → enrollment base32 f ≡ some shown
    → (Totp.validated base32 f ≡ true) × (status_of f.status ≡ some pending)
unfolding enrollment
enrollment-valid base32 f shown h = elim (Bool-cases (Totp.validated base32 f)) [
  | inr v ↦ absurd (ground (arith, h, v))
  | inl v ↦ elim (Option-cases (status_of f.status)) [
    | inl e ↦ absurd (ground (arith, h, v, e))
    | inr (pending, e) ↦ (v, e)
    | inr (active, e) ↦ absurd (ground (arith, h, v, e))
  ]
]

pub same_int : (a b : ℤ) → is_int a (some (int b)) ≡ true → a ≡ b
same_int a b h = ground (arith, h)

abbrev factor_or : Factor → Member Factor → Factor
factor_or f (held g) = g
factor_or f _ = f

module _ (X : Libraries) where
  pub recoded-IsReady :
      (d : Data) (s : AuthState) (codes : CodeSet)
      → IsReady X d s
      → d.recovery_codes ≡ held (some codes)
      → IsReady X (record d { recovery_codes = held (some codes) }) s
  recoded-IsReady d s codes h e = subst (λ m. IsReady X (record d { recovery_codes = m }) s) e h

  -- A refused code, counted by the factor too.
  pub refusal-Moved :
      (now : ℤ) (d d' : Data) (s : AuthState) (m : Member Factor)
      (r : Verification × Option Enrollment)
      → IsReady X d s
      → IsFactor X m (status_in s)
      → refusal now d m ≡ ok (d', r)
      → Moved X s d'
  refusal-Moved now d d' s missing r i p h = absurd (ground (arith, h))
  refusal-Moved now d d' s unfit r i p h = absurd (ground (arith, h))
  refusal-Moved now d d' s (held f) r i p h =
      let same : p.factor ≡ f = ap (factor_or p.factor) (sym p.is_held) in
      let v = subst (λ g. Totp.validated X.base32 g ≡ true) same p.valid in
      let e = subst (λ g. status_of g.status ≡ some (status_in s)) same p.status_fits in
      let w = failure-validated X.base32 now f v in
      let q =
        IsFactor-status X (record_failure now f).0 (status_in s) w
          (ap status_of (failure-status now f) ∙ e) in
      subst (Moved X s) (ap (data_of d) h)
        (stay X s _ (same_status-IsReady X d s (record_failure now f).0 i q))

  -- A used code: a new factor is pending, and the codes that are left are valid.
  used-IsReady :
      (d : Data) (codes : CodeSet) (fresh secret shown : Text) (now : ℤ)
      → IsBase X d
      → HasRoom d
      → hex64 (text secret) ≡ true
      → validated codes ≡ true
      → enrollment X.base32 (new_record fresh now) ≡ some shown
      → IsReady X
          (rotated
            (next_generation d)
            secret
            (record d { recovery_codes = held (some codes); totp = held (new_record fresh now) }))
          recovery_enrollment
  used-IsReady d codes fresh secret shown now b r x v e =
      let (w, q) = enrollment-valid X.base32 (new_record fresh now) shown e in
      let (n, g, p) = next-positive d b.positive r in
      record {
        base =
            rotated-IsBase X d (held (some codes)) (held (new_record fresh now)) (next_generation d)
              secret b (rw p (ground arith)) x;
        factor = rw (w, q, v) refl;
      }

  has_cases : (s : AuthState) → has_codes s ≡ true → Follows s recovery_enrollment
  has_cases configured h = Follows.recovers
  has_cases recovery_enrollment h = Follows.stays recovery_enrollment
  has_cases uninitialized h = absurd (ground (arith, h))
  has_cases enrollment_required h = absurd (ground (arith, h))
  has_cases recovery_required h = absurd (ground (arith, h))

  pub used-Moved :
      (d d' : Data) (s : AuthState) (codes : CodeSet) (fresh secret : Text) (now : ℤ)
      (r : Verification × Option Enrollment) (o : Option Text)
      → IsReady X d s
      → has_codes s ≡ true
      → HasRoom d
      → hex64 (text secret) ≡ true
      → validated codes ≡ true
      → enrollment X.base32 (new_record fresh now) ≡ o
      → replaced_factor secret
          (new_record fresh now)
          (next_generation d)
          (record d { recovery_codes = held (some codes) })
          o
        ≡ ok (d', r)
      → Moved X s d'
  used-Moved d d' s codes fresh secret now r none i c k x v e h = absurd (ground (arith, h))
  used-Moved d d' s codes fresh secret now r (some shown) i c k x v e h =
      subst (Moved X s) (ap (data_of d) h) (record {
        state = recovery_enrollment;
        follows = has_cases s c;
        is_set = used-IsReady d codes fresh secret shown now i.base k x v e;
      })
