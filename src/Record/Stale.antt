-- ===== src/Record/Stale.antt =====
-- A ceremony from before a change of the factors changes nothing.
use shimpz_admin.Prelude.{
  ◌≡◌, refl, sym, subst, ap, ◌∙◌, inl, inr, Bool, false, not, ◌&&◌, Option, none, some, Text,
  Bool-cases,
}
use shimpz_admin.Prelude.Int.{ℤ}
use shimpz_admin.Signin.Totp.{Value, int, Verification}
use shimpz_admin.Signin.Recovery.{CodeSet, Candidate}
use shimpz_admin.Signin.Passkeys.{PasskeyError}
use shimpz_admin.Record.{
  Result, ok, err, ◌>>=◌, Passkey, Data, Libraries, Store, Disk, Journal, Outcome, mutate,
}
use shimpz_admin.Record.Transaction.{mutate_cases}
use shimpz_admin.Record.Operations.{verify_totp, spend_recovery_code}
use shimpz_admin.Record.Passkeys.{unless_invalid, add_passkey, commit_passkey_authentication}
use shimpz_admin.Record.State.{
  AuthState, configured, is_int, authentication_state, validated_passkey,
}
use shimpz_admin.Record.Factors.{
  Ceremony, enrolls, valid_codes, Enrollment, requires, is_state, has_codes, generation, attempt_in,
  attempt_totp, spend_in, spend_code,
}
use shimpz_admin.Record.Credentials.{
  Authentication, PasskeyCommit, is_open, add_in, add_record, commit_in, commit_assertion,
}

-- What a result leaves of a record: nothing is written, or the record as it is.
abbrev pub IsUnchanged {ℓ} : {R : Type ℓ} → Data → Result (Data × R) → Type 0
IsUnchanged d (ok (d', r)) = d' ≡ d
IsUnchanged d (err e) = Unit

module _ (X : Libraries) (expected : ℤ) (d : Data)
    (stale : is_int expected (some (int (generation d))) ≡ false) where
  in_verify :
      (typed : Value) (c : Ceremony) (codes : Option CodeSet) (secret : Text) (now : ℤ)
      (s : Result AuthState)
      → IsUnchanged d (s >>= attempt_in X typed c (some expected) codes secret now d)
  in_verify typed c codes secret now (err e) = tt
  in_verify typed c codes secret now (ok s) = elim (Bool-cases (is_state s (requires c))) [
    | inl b ↦ rw (b, stale) refl
    | inr b ↦ rw b tt
  ]

  in_spend :
      (derived : Candidate) (fresh secret : Text) (now : ℤ) (s : Result AuthState)
      → IsUnchanged d (s >>= spend_in X derived expected fresh secret now d)
  in_spend derived fresh secret now (err e) = tt
  in_spend derived fresh secret now (ok s) = elim (Bool-cases (has_codes s)) [
    | inl b ↦ rw (b, stale) refl
    | inr b ↦ rw b tt
  ]

  closed : (s : AuthState) → is_open X s expected d ≡ false
  closed s = elim (Bool-cases (is_state s configured)) [
    | inl b ↦ rw (b, stale) refl
    | inr b ↦ rw b refl
  ]

  in_add :
      (k : Passkey) (secret : Text) (s : Result AuthState)
      → IsUnchanged d (s >>= add_in X k expected secret d)
  in_add k secret (err e) = tt
  in_add k secret (ok s) = rw (closed s) tt

  in_commit :
      (original : Passkey) (a : Authentication) (sign_in : Bool) (secret : Text) (now : ℤ)
      (s : Result AuthState)
      → IsUnchanged d (s >>= commit_in X original a expected sign_in secret now d)
  in_commit original a sign_in secret now (err e) = tt
  in_commit original a sign_in secret now (ok s) = rw (closed s) tt

module _ {ℓ κ} {J : Type ℓ} {R : Type κ} where
  -- A transaction whose change leaves the record leaves the file.
  mutate_unchanged :
      (disk : Disk) (update : Data → Result (Data × R)) (should_write : R → Bool)
      (journal : Option (Journal J R)) (s : Store J)
      → ((d : Data) → s.content ≡ ok d → IsUnchanged d (update d))
      → (mutate disk update should_write journal s).0.content ≡ s.content
  mutate_unchanged disk update should_write journal s h =
      elim (mutate_cases update should_write disk journal s) [
        | inl (u, w) ↦ u.0
        | inr c ↦
            let same = subst (IsUnchanged c.before) c.change (h c.before c.read) in
            c.stored ∙ ap ok same ∙ sym c.read
      ]

-- An attempt that names the generation of the factors it was meant for, with its journal.
pub data Attempt {ℓ} (J : Type ℓ) : Type ℓ where
  code : Value → Ceremony → Option CodeSet → Text → Journal J Verification → ℤ → Attempt J
  recovery : Candidate → Text → Text → Journal J (Verification × Option Enrollment) → ℤ → Attempt J
  registration : Passkey → Text → Journal J Text → Attempt J
  assertion : Passkey → Authentication → Bool → Text → Journal J PasskeyCommit → ℤ → Attempt J

module _ {ℓ} {J : Type ℓ} (X : Libraries) where
  unless_unchanged {κ} :
      {R : Type κ} (e : Option PasskeyError) (o : Outcome J R) (s : Store J)
      → o.0.content ≡ s.content
      → (unless_invalid X e o s).0.content ≡ s.content
  unless_unchanged none o s h = h
  unless_unchanged (some e) o s h = refl

  -- Is a generation not that of the record in the file?
  abbrev pub IsStale : ℤ → Store J → Type 0
  IsStale expected s =
      (d : Data) → s.content ≡ ok d → is_int expected (some (int (generation d))) ≡ false

  verify_unchanged :
      (disk : Disk) (expected : ℤ) (typed : Value) (c : Ceremony) (codes : Option CodeSet)
      (secret : Text) (journal : Journal J Verification) (now : ℤ) (s : Store J)
      → IsStale expected s
      → (verify_totp X disk typed c (some expected) codes secret journal now s).0.content
        ≡ s.content
  unfolding verify_totp attempt_totp
  verify_unchanged disk expected typed c codes secret journal now s h =
      elim (Bool-cases (enrolls c && not (valid_codes codes))) [
        | inl b ↦ rw b refl
        | inr b ↦ rw b (
            mutate_unchanged disk _ _ (some journal) s (λ d e.
              in_verify X expected d (h d e) typed c codes secret now (authentication_state X d)))
      ]

  -- What is tried on the store under an expected generation.
  unfoldable pub try_on : Disk → ℤ → Attempt J → Store J → Store J
  try_on disk expected (code typed c codes secret journal now) s =
      (verify_totp X disk typed c (some expected) codes secret journal now s).0
  try_on disk expected (recovery derived fresh secret journal now) s =
      (spend_recovery_code X disk derived expected fresh secret journal now s).0
  try_on disk expected (registration k secret journal) s =
      (add_passkey X disk k expected secret journal s).0
  try_on disk expected (assertion original a sign_in secret journal now) s =
      (commit_passkey_authentication X disk original a expected sign_in secret journal now s).0

  -- A TOTP code, a recovery code, a new passkey and an assertion that were meant for a generation of the
  -- factors which is not the record's change nothing of the file, whatever the disk and the journal do.
  pub stale_unchanged :
      (disk : Disk) (expected : ℤ) (t : Attempt J) (s : Store J)
      → IsStale expected s
      → (try_on disk expected t s).content ≡ s.content
  unfolding try_on spend_code add_record commit_assertion spend_recovery_code add_passkey
      commit_passkey_authentication
  stale_unchanged disk expected (code typed c codes secret journal now) s h =
      verify_unchanged disk expected typed c codes secret journal now s h
  stale_unchanged disk expected (recovery derived fresh secret journal now) s h =
      mutate_unchanged disk _ _ (some journal) s
        (λ d e. in_spend X expected d (h d e) derived fresh secret now (authentication_state X d))
  stale_unchanged disk expected (registration k secret journal) s h =
      unless_unchanged (validated_passkey X.is_ipv4 (some k)) _ s (
        mutate_unchanged disk _ _ (some journal) s
          (λ d e. in_add X expected d (h d e) k secret (authentication_state X d)))
  stale_unchanged disk expected (assertion original a sign_in secret journal now) s h =
      unless_unchanged (validated_passkey X.is_ipv4 (some original)) _ s (
        mutate_unchanged disk _ _ (some journal) s (λ d e.
          in_commit X expected d (h d e) original a sign_in secret now (authentication_state X d)))
