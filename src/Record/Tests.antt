-- ===== src/Record/Tests.antt =====
-- The store at work.
use shimpz_admin.Prelude.{
  ℕ, suc, ◌≡◌, refl, subst, ap, ◌⊎◌, Bool, true, false, [], ◌∷◌, ◌++◌, Option, none, some, Text,
  codes, Text-discrete, Option-discrete, ℕ_discrete,
}
use shimpz_admin.Prelude.Int.{pos, ◌+ℤ◌, ◌-ℤ◌}
use shimpz_admin.Protocol.Origin.{split_once, strip_prefix}
use shimpz_admin.Signin.Totp.{
  null, int, text, Factor, Verification, accepted, changed, status_of, new_record, enrollment,
  decode_secret, record_failure,
}
use shimpz_admin.Signin.Totp as Totp
use shimpz_admin.Signin.Recovery.{Entry, CodeSet, Candidate, last_match, mark_at, spend}
use shimpz_admin.Signin.Recovery as Recovery
use shimpz_admin.Signin.Password.{verifier_prefix, password_material, password_set}
use shimpz_admin.Signin.Sessions.{new, end_all}
use shimpz_admin.Record.{
  StateError, Result, ok, err, held, missing, Data, Libraries, Store, replaced, Value-discrete,
  mutate,
}
use shimpz_admin.Record.State.{
  AuthState, is_int, configured, consumed_host_resets, validated_passkeys, authentication_state,
}
use shimpz_admin.Record.Factors.{AuthState-discrete, Enrollment, generation, spend_code}
use shimpz_admin.Record.Transaction.{Untouched, Skips, Committed, mutate_cases}
use shimpz_admin.Record.Phases.{Follows}
use shimpz_admin.Record.Phases.Attempts.{data_of}
use shimpz_admin.Record.Phases.Invariant.{Change, spends, change, change-Follows}
use shimpz_admin.Record.Stale.{recovery, IsStale, try_on, stale_unchanged}
use shimpz_admin.Record.Operations.{spend_recovery_code}
use shimpz_admin.Record.Resets.{consume_reset}
use shimpz_admin.Record.Resets.Once.{consumes, present_all, consume_reset_once}
use shimpz_admin.Record.Once.{accepts, spend_code_once}

-- All that the tests evaluate.
record_tests : Unit {0}
unfolding Text-discrete Option-discrete ℕ_discrete ◌+ℤ◌ ◌-ℤ◌ split_once strip_prefix status_of
    enrollment decode_secret Totp.validated Recovery.validated last_match mark_at spend
    password_material password_set validated_passkeys authentication_state AuthState-discrete
    spend_code change new_record mutate Value-discrete end_all record_failure Totp.is_locked
    Totp.lock_seconds try_on spend_recovery_code new consume_reset consumed_host_resets
record_tests = tt

-- Libraries that are as simple as can be.
abbrev libraries : Libraries
libraries = record {
  hex = λ t. some t;
  base32 = λ t. some (codes "01234567890123456789");
  hmac = λ a b. codes "01234567890123456789";
  is_ipv4 = λ t. false;
}

abbrev hex : ℕ → Text
hex c =
    codes "000"
    ++ codes "0000000000"
    ++ codes "0000000000"
    ++ codes "0000000000"
    ++ codes "0000000000"
    ++ codes "0000000000"
    ++ codes "0000000000"
    ++ c ∷ []

abbrev unused : ℕ → Option Entry
unused c = some (record { digest = text (hex c); used_at = null })

abbrev ten : CodeSet
ten = record {
  salt = text (hex 97);
  stored = some (
      unused 48
      ∷ unused 49
      ∷ unused 50
      ∷ unused 51
      ∷ unused 52
      ∷ unused 53
      ∷ unused 54
      ∷ unused 55
      ∷ unused 56
      ∷ unused 57
      ∷ []);
}

abbrev third : Candidate
third = record { salt = hex 97; digest = some (hex 50) }

abbrev totp_secret : Text
totp_secret = codes "ABCDEFGHABCDEFGHABCDEFGHABCDEFGH"

abbrev factor : Factor
factor = record {
  status = text (codes "active");
  secret = text totp_secret;
  created_at = int (pos 1759000000);
  resumed_at = int (pos 1759000000);
  expires_at = null;
  failures = int (pos 0);
  locked_until = null;
  last_accepted_step = null;
  activated_at = int (pos 1759000060);
}

abbrev supervisor : Data
supervisor = record {
  password_verifier = some (text (verifier_prefix ++ hex 49 ++ 36 ∷ hex 50));
  session_secret = some (text (hex 51));
  supervisor_id = some (text (hex 52));
  supervisor_signing_key = some (text (hex 53));
  auth_version = some (int (pos 1));
  factor_generation = some (int (pos 3));
  webauthn_user_id = some (text (hex 54));
  created = some (int (pos 1759000000));
  passkeys = held [];
  totp = held factor;
  second_factor_failures =
      held (record { since_sign_in = int (pos 0); unacknowledged = int (pos 0) });
  recovery_codes = held (some ten);
  consumed_host_resets = missing;
  others = [];
}

supervisor-configured : authentication_state libraries supervisor ≡ ok configured
unfolding record_tests
supervisor-configured = refl

abbrev spending : Change
spending = spends third (pos 3) totp_secret (hex 55) (pos 1760000000)

abbrev spent : Data
spent = record supervisor {
  session_secret = some (text (hex 55));
  factor_generation = some (int (pos 4));
  totp = held (new_record totp_secret (pos 1760000000));
  recovery_codes = held (
      some (record ten {
        stored = some (
            unused 48
            ∷ unused 49
            ∷ some (record { digest = text (hex 50); used_at = int (pos 1760000000) })
            ∷ unused 51
            ∷ unused 52
            ∷ unused 53
            ∷ unused 54
            ∷ unused 55
            ∷ unused 56
            ∷ unused 57
            ∷ []);
      }));
}

spending_changes : change libraries spending supervisor ≡ ok spent
unfolding record_tests
spending_changes = refl

change-Follows_example :
    (s : AuthState) × (authentication_state libraries spent ≡ ok s) × Follows configured s
unfolding record_tests
change-Follows_example =
    change-Follows libraries spending supervisor spent configured supervisor-configured
      (record { room = refl; hex_secret = refl; dated = refl }) spending_changes

-- Presented again, the candidate is refused.
presented_again :
    spend_code libraries third (pos 4) totp_secret (hex 56) (pos 1760000060) spent
    ≡ ok (
      data_of spent
          (spend_code libraries third (pos 4) totp_secret (hex 56) (pos 1760000060) spent),
      (Verification.invalid, none),
    )
unfolding record_tests
presented_again = refl

spend_code_once_example :
    accepts (spend_code libraries third (pos 4) totp_secret (hex 56) (pos 1760000060) spent) ≡ false
unfolding record_tests
spend_code_once_example =
    spend_code_once libraries third (pos 3) (pos 4) totp_secret (hex 55) totp_secret (hex 56)
      (pos 1760000000) (pos 1760000060) supervisor spent (some totp_secret) refl refl

-- A journal that counts its entries.
abbrev store : Store ℕ
store = record {
  content = ok supervisor;
  sessions = record { idle = 100; capacity = 2; last_seen = []; order = 0 };
  journal = 0;
}

abbrev counts {ℓ} : {R : Type ℓ} → R → ℕ → ℕ × Option StateError
counts r n = (suc n, none)

abbrev spends_third : Data → Result (Data × (Verification × Option Enrollment))
spends_third d = spend_code libraries third (pos 3) totp_secret (hex 55) (pos 1760000000) d

abbrev always {ℓ} : {R : Type ℓ} → R → Bool
always r = true

mutate_cases_example :
    (Untouched store (mutate replaced spends_third always (some counts) store).0
      × Skips replaced spends_third always (some counts) store)
    ⊎ Committed replaced spends_third always
        (some counts)
        store
        (mutate replaced spends_third always (some counts) store).0
mutate_cases_example = mutate_cases spends_third always replaced (some counts) store

mutate_writes : (mutate replaced spends_third always (some counts) store).0.content ≡ ok spent
unfolding record_tests
mutate_writes = refl

abbrev read_or : Data → Result Data → Data
read_or d (ok d') = d'
read_or d (err e) = d

store-IsStale : IsStale libraries (pos 2) store
store-IsStale d e =
    subst (λ x. is_int (pos 2) (some (int (generation x))) ≡ false) (ap (read_or supervisor) e) refl

stale_unchanged_example :
    (try_on libraries replaced
      (pos 2)
      (recovery third totp_secret (hex 55) counts (pos 1760000000))
      store).content
    ≡ ok supervisor
stale_unchanged_example =
    stale_unchanged libraries replaced (pos 2)
      (recovery third totp_secret (hex 55) counts (pos 1760000000)) store store-IsStale

abbrev used_reset : Data
used_reset = record supervisor {
  consumed_host_resets =
      held (some (record { digest = text (hex 56); expires_at = int (pos 1760000900) }) ∷ []);
}

reset_consumed :
    consume_reset (hex 56) (pos 1760000900) (pos 1760000000) supervisor ≡ ok (used_reset, true)
unfolding record_tests
reset_consumed = refl

reset_again :
    consume_reset (hex 56) (pos 1760009999) (pos 1760000900) used_reset ≡ ok (used_reset, false)
unfolding record_tests
reset_again = refl

-- Another capability that is presented in between.
consume_reset_once_example :
    consumes (
      consume_reset
        (hex 56)
        (pos 1760009999)
        (pos 1760000900)
        (present_all ((hex 57, pos 1760000800, pos 1760000500) ∷ []) used_reset))
    ≡ false
consume_reset_once_example =
    consume_reset_once (hex 56) (pos 1760000900) (pos 1760009999) (pos 1760000000) (pos 1760000900)
      ((hex 57, pos 1760000800, pos 1760000500) ∷ []) supervisor used_reset reset_consumed refl refl
