-- ===== src/Record/Operations.antt =====
-- backend/src/record/factors.rs and classify.rs: the store's operations, each one transaction. What the
-- file system does comes first, then what is drawn and read.
use shimpz_admin.Prelude.{
  ℕ, Bool, true, false, not, ◌&&◌, [], Option, none, some, Text, if◌then◌else◌,
}
use shimpz_admin.Prelude.Int.{ℤ}
use shimpz_admin.Signin.Totp.{Value, text, Verification, changed}
use shimpz_admin.Signin.Recovery.{CodeSet, Candidate, validated, remaining, candidate}
use shimpz_admin.Signin.Sessions.{Sessions, Ended, nothing}
use shimpz_admin.Signin.Token.{Evidence, verify}
use shimpz_admin.Record.{
  totp, Result, ok, err, ◌>>=◌, ok_or, Data, Libraries, Store, Disk, Journal, Outcome, mutate,
  mutate_always,
}
use shimpz_admin.Record.State.{AuthState, configured, authentication_state}
use shimpz_admin.Record.Factors.{
  Ceremony, Drawn, Enrollment, enrolls, is_state, has_codes, valid_codes, generation, codes_in,
  unacknowledged, set_up, resume_enrollment, attempt_totp, spend_code, replace_codes, acknowledge,
}

abbrev is_changed : Verification → Bool
is_changed changed = true
is_changed _ = false

abbrev only_in : AuthState → Data → AuthState → Result Data
only_in required d state = if is_state state required then ok d else err totp

abbrev with_codes : Data → AuthState → Result Data
with_codes d state = if has_codes state then ok d else err totp

abbrev pub secret_of : Option Value → Text
secret_of (some (text t)) = t
secret_of _ = []

abbrev pub log_out : Text → Option Evidence → Data → Result AuthState → Result (Data × Bool)
log_out secret (some e) d (ok configured) =
    ok (record d { session_secret = some (text secret) }, true)
log_out secret valid d (ok state) = ok (d, false)
log_out secret valid d (err e) = err e

module _ (signature : Text → Text → Option Text) (digest : Text → Text) where
  -- What the transaction's change says: whether the session was valid.
  abbrev pub presented :
      ℕ → ℤ → Text → Sessions → Result AuthState → Data → Sessions × Ended × Option Evidence
  presented monotonic now token sessions state d = elim state [
    | ok configured ↦
        verify signature digest monotonic now (secret_of d.session_secret) token false sessions
    | _ ↦ (sessions, nothing, none)
  ]

module _ {ℓ} {J : Type ℓ} (X : Libraries) where
  unfoldable pub begin_supervisor_setup : Disk → Text → Drawn → ℤ → Store J → Outcome J Enrollment
  begin_supervisor_setup disk verifier drawn now s =
      mutate_always disk (set_up X verifier drawn now) s

  unfoldable pub resume_totp_enrollment : Disk → ℤ → Store J → Outcome J Enrollment
  resume_totp_enrollment disk now s = mutate_always disk (resume_enrollment X now) s

  -- With the session secret that an enrollment draws.
  unfoldable pub verify_totp :
      Disk
      → Value
      → Ceremony
      → Option ℤ
      → Option CodeSet
      → Text
      → Journal J Verification
      → ℤ
      → Store J
      → Outcome J Verification
  verify_totp disk code ceremony expected codes secret journal now s =
      if enrolls ceremony && not (valid_codes codes)
      then (s, err totp, nothing)
      else mutate disk (attempt_totp X code ceremony expected codes secret now) (λ _. true)
          (some journal) s

  -- With the TOTP secret and the session secret that an accepted code draws.
  unfoldable pub spend_recovery_code :
      Disk
      → Candidate
      → ℤ
      → Text
      → Text
      → Journal J (Verification × Option Enrollment)
      → ℤ
      → Store J
      → Outcome J (Verification × Option Enrollment)
  spend_recovery_code disk derived expected fresh secret journal now s =
      mutate disk (spend_code X derived expected fresh secret now) (λ r. not (is_changed r.0))
        (some journal) s

  unfoldable pub replace_recovery_codes :
      Disk → CodeSet → Journal J (Unit {0}) → Store J → Outcome J (Unit {0})
  replace_recovery_codes disk codes journal s =
      if validated codes
      then mutate disk (replace_codes X codes) (λ _. true) (some journal) s
      else (s, err totp, nothing)

  unfoldable pub acknowledge_second_factor_failures : Disk → ℤ → Store J → Outcome J (Unit {0})
  acknowledge_second_factor_failures disk count s = mutate_always disk (acknowledge X count) s

  unfoldable pub recovery_codes_remaining : Store J → Result ℕ
  recovery_codes_remaining s = s.content >>= λ d.
      authentication_state X d >>= only_in configured d >>= λ d.
      codes_in d.recovery_codes >>= λ codes. ok_or totp (remaining codes)

  unfoldable pub unacknowledged_second_factor_failures : Store J → Result ℤ
  unacknowledged_second_factor_failures s = s.content >>= λ d.
      authentication_state X d >>= λ _. ok (unacknowledged d.second_factor_failures)

  unfoldable pub factor_generation : Store J → Result ℤ
  factor_generation s = s.content >>= λ d. authentication_state X d >>= λ _. ok (generation d)

  module _ (scrypt : Text → Text → Text) (encode : Text → Text) (lower : Text → Text) where
    unfoldable pub recovery_candidate : Value → Store J → Result Candidate
    recovery_candidate typed s = s.content >>= λ d.
        authentication_state X d >>= with_codes d >>= λ d. codes_in d.recovery_codes >>= λ codes.
        ok_or totp (candidate scrypt encode X.hex lower codes typed)

  module _ (signature : Text → Text → Option Text) (digest : Text → Text) where
    -- The listeners hear of a session that idled out, or of the end of all.
    abbrev heard : Ended → Outcome J Bool → Outcome J Bool
    heard nothing o = o
    heard ended (s, r, later) = (s, r, ended)

    abbrev log_out_read : Disk → ℕ → ℤ → Text → Text → Store J → Result Data → Outcome J Bool
    log_out_read disk monotonic now token secret s (err e) = (s, err e, nothing)
    log_out_read disk monotonic now token secret s (ok d) =
        let (sessions, ended, valid) =
          presented signature digest monotonic now token s.sessions (authentication_state X d) d in
        heard ended (
          mutate disk (λ d. log_out secret valid d (authentication_state X d)) (λ r. r) none
            (record s { sessions = sessions }))

    -- With the session secret that it draws.
    unfoldable pub revoke_sessions_for_logout :
        Disk → ℕ → ℤ → Text → Text → Store J → Outcome J Bool
    revoke_sessions_for_logout disk monotonic now token secret s =
        log_out_read disk monotonic now token secret s s.content
