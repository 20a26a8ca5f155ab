-- ===== src/Record/Phases/Invariant.antt =====
-- Every transaction on the Supervisor's factors, as one step of the record.
use shimpz_admin.Prelude.{ℕ, ◌<◌, ◌^◌, ◌≡◌, ap, Bool, true, Option, none, some, Text}
use shimpz_admin.Prelude.Int.{ℤ, pos}
use shimpz_admin.Signin.Totp.{Value}
use shimpz_admin.Signin.Recovery.{CodeSet, Candidate, validated}
use shimpz_admin.Record.{Result, ok, err, ◌>>=◌, Passkey, Data, Libraries}
use shimpz_admin.Record.State.{AuthState, validated_passkey, authentication_state}
use shimpz_admin.Record.Factors.{
  Ceremony, Drawn, set_up, resume_enrollment, attempt_totp, spend_code, replace_codes, acknowledge,
}
use shimpz_admin.Record.Credentials.{Authentication, add_record, commit_assertion}
use shimpz_admin.Record.Phases.{Follows, IsReady-state, HasRoom}
use shimpz_admin.Record.Phases.Attempts.{Moved, created_by, attempt-Moved}
use shimpz_admin.Record.Phases.Attempts as Attempts
use shimpz_admin.Record.Phases.Spent as Spent
use shimpz_admin.Record.Phases.Commits as Commits
use shimpz_admin.Record.Phases.Changes as Changes

-- A change that a transaction makes, with its arguments and what it draws.
pub data Change : Type 0 where
  sets_up : Text → Drawn → ℤ → Change
  resumes : ℤ → Change
  verifies : Value → Ceremony → Option ℤ → Option CodeSet → Text → ℤ → Change
  spends : Candidate → ℤ → Text → Text → ℤ → Change
  replaces : CodeSet → Change
  acknowledges : ℕ → Change
  adds : Passkey → ℤ → Text → Change
  commits : Passkey → Authentication → ℤ → Bool → Text → ℤ → Change

-- The record without the transaction's result.
abbrev left {ℓ} : {R : Type ℓ} → Result (Data × R) → Result Data
left (ok (d, r)) = ok d
left (err e) = err e

module _ (X : Libraries) where
  unfoldable pub change : Change → Data → Result Data
  change (sets_up verifier drawn now) d = left (set_up X verifier drawn now d)
  change (resumes now) d = left (resume_enrollment X now d)
  change (verifies code ceremony expected codes secret now) d =
      left (attempt_totp X code ceremony expected codes secret now d)
  change (spends derived expected fresh secret now) d =
      left (spend_code X derived expected fresh secret now d)
  change (replaces codes) d = left (replace_codes X codes d)
  change (acknowledges count) d = left (acknowledge X (pos count) d)
  change (adds k expected secret) d = left (add_record X k expected secret d)
  change (commits original a expected sign_in secret now) d =
      left (commit_assertion X original a expected sign_in secret now d)

  -- What a change relies on: fresh secrets of 32 bytes in hexadecimal, valid codes and passkeys, a clock
  -- that does not stand before what the record holds, and a generation that can still grow.
  abbrev pub Allowed : Change → Data → Type 0
  Allowed (sets_up verifier drawn now) d = Changes.IsDrawn X verifier drawn
  Allowed (resumes now) d = Unit
  Allowed (verifies code ceremony expected codes secret now) d =
      Attempts.Fits X ceremony codes secret d × (created_by now d.totp ≡ true)
  Allowed (spends derived expected fresh secret now) d = Spent.Fits now secret d
  Allowed (replaces codes) d = HasRoom d × (validated codes ≡ true)
  Allowed (acknowledges count) d = count < 2 ^ 63
  Allowed (adds k expected secret) d =
      Commits.Fits secret d × (validated_passkey X.is_ipv4 (some k) ≡ none)
  Allowed (commits original a expected sign_in secret now) d =
      Commits.Fits secret d × Commits.IsTimely X original a now

  opened {ℓ} :
      {R : Type ℓ} (r : Result (Data × R)) (d : Data) → left r ≡ ok d → (x : R) × (r ≡ ok (d, x))
  opened (ok (d', x)) d h = (x, ap (λ y. y >>= λ z. ok (z, x)) h)
  opened (err e) d h = absurd (Commits.refused_error h)

  change-Moved :
      (c : Change) (d d' : Data) (s : AuthState)
      → authentication_state X d ≡ ok s
      → Allowed c d
      → change c d ≡ ok d'
      → Moved X s d'
  unfolding change
  change-Moved (sets_up verifier drawn now) d d' s e a h =
      let (r, g) = opened (set_up X verifier drawn now d) d' h in
      Changes.set_up-Moved X verifier drawn now d d' s r e a g
  change-Moved (resumes now) d d' s e a h =
      let (r, g) = opened (resume_enrollment X now d) d' h in
      Changes.resume-Moved X now d d' s r e g
  change-Moved (verifies code ceremony expected codes secret now) d d' s e a h =
      let (r, g) = opened (attempt_totp X code ceremony expected codes secret now d) d' h in
      attempt-Moved X code ceremony expected codes secret now d d' r s e a.0 a.1 g
  change-Moved (spends derived expected fresh secret now) d d' s e a h =
      let (r, g) = opened (spend_code X derived expected fresh secret now d) d' h in
      Spent.spend-Moved X derived expected fresh secret now d d' s r e a g
  change-Moved (replaces codes) d d' s e a h =
      let (r, g) = opened (replace_codes X codes d) d' h in
      Changes.replace-Moved X codes d d' s r e a.0 a.1 g
  change-Moved (acknowledges count) d d' s e a h =
      let (r, g) = opened (acknowledge X (pos count) d) d' h in
      Changes.acknowledge-Moved X count d d' s r a e g
  change-Moved (adds k expected secret) d d' s e a h =
      let (r, g) = opened (add_record X k expected secret d) d' h in
      Commits.add-Moved X k expected secret d d' s r e a.0 a.1 g
  change-Moved (commits original a expected sign_in secret now) d d' s e q h =
      let (r, g) = opened (commit_assertion X original a expected sign_in secret now d) d' h in
      Commits.commit-Moved X original a expected sign_in secret now d d' s r e q.0 q.1 g

  -- A transaction that changes a record in one of its states leaves a record in one of them again: the
  -- same, or the enrollment that setup begins, the configured state that an enrollment ends in, or the
  -- new enrollment that a recovery code begins. This assumes fresh secrets of 32 bytes in hexadecimal,
  -- valid new codes and passkeys, a clock that does not stand before what the record holds, counters
  -- and counts that are not negative, and a generation that can still grow.
  pub change-Follows :
      (c : Change) (d d' : Data) (s : AuthState)
      → authentication_state X d ≡ ok s
      → Allowed c d
      → change c d ≡ ok d'
      → (s' : AuthState) × (authentication_state X d' ≡ ok s') × Follows s s'
  change-Follows c d d' s e a h =
      let m = change-Moved c d d' s e a h in
      (m.state, IsReady-state X d' m.state m.is_set, m.follows)
