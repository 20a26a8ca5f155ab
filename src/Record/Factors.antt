-- ===== src/Record/Factors.antt =====
-- backend/src/record/factors.rs: setup, TOTP attempts, recovery codes, the counters of refused attempts,
-- and the end of every session. A transaction's change of the record is a function of its own; what is
-- drawn at random is an argument.
use shimpz_admin.Prelude.{
  Bool, true, false, ◌&&◌, ◌||◌, [], Option, none, some, Text, ite, if◌then◌else◌,
}
use shimpz_admin.Prelude.Int.{ℤ, pos, negsuc, ◌+ℤ◌, ◌-ℤ◌, ltb_ℤ, wrap}
use shimpz_admin.Protocol.Origin.{same}
use shimpz_admin.Signin.Totp.{
  Value, int, text, as_int, as_str, Factor, Verification, accepted, invalid, locked, changed,
  new_record, resume, enrollment, verify, record_failure, is_locked, int_or_zero,
}
use shimpz_admin.Signin.Recovery.{CodeSet, Candidate, validated, spend}
use shimpz_admin.Signin.Password.{password_set}
use shimpz_admin.Record.{
  password_record, totp, authority, already_configured, Result, ok, err, ◌>>=◌, Member, held,
  Failures, Data, Libraries,
}
use shimpz_admin.Record.State.{
  AuthState, enrollment_required, configured, recovery_enrollment, max_second_factor_failures,
  has_value, is_int, authentication_state,
}

pub data Ceremony : Type 0 where
  setup recovery login operation : Ceremony

unfoldable pub AuthState-discrete : Discrete AuthState
AuthState-discrete = hlevel

abbrev pub is_state : AuthState → AuthState → Bool
is_state s t = ite (AuthState-discrete s t) true false

abbrev pub requires : Ceremony → AuthState
requires setup = enrollment_required
requires recovery = recovery_enrollment
requires login = configured
requires operation = configured

abbrev pub enrolls : Ceremony → Bool
enrolls setup = true
enrolls recovery = true
enrolls _ = false

abbrev member_int : Option Value → ℤ
member_int none = pos 0
member_int (some v) = int_or_zero (as_int v)

abbrev pub generation : Data → ℤ
generation d = member_int d.factor_generation

abbrev pub since_sign_in : Member Failures → ℤ
since_sign_in (held f) = int_or_zero (as_int f.since_sign_in)
since_sign_in _ = pos 0

abbrev pub unacknowledged : Member Failures → ℤ
unacknowledged (held f) = int_or_zero (as_int f.unacknowledged)
unacknowledged _ = pos 0

abbrev pub at_most : ℤ → ℤ
at_most n = if ltb_ℤ (pos max_second_factor_failures) n then pos max_second_factor_failures else n

abbrev pub refusal_counted : Member Failures → Member Failures
refusal_counted (held f) =
    held (record f { since_sign_in = int (at_most (wrap (since_sign_in (held f) +ℤ pos 1))) })
refusal_counted m = m

abbrev pub reported : Member Failures → Member Failures
reported (held f) = held (record {
  since_sign_in = int (pos 0);
  unacknowledged = int (at_most (wrap (unacknowledged (held f) +ℤ since_sign_in (held f))));
})
reported m = m

abbrev pub second_factor_refused : Data → Data
second_factor_refused d = record d {
  second_factor_failures = refusal_counted d.second_factor_failures;
}

abbrev pub signed_in : Data → Data
signed_in d = record d { second_factor_failures = reported d.second_factor_failures }

-- A new factor generation and a new session secret, which ends every session.
abbrev pub rotated : ℤ → Text → Data → Data
rotated next secret d = record d {
  factor_generation = some (int next);
  session_secret = some (text secret);
}

abbrev pub next_generation : Data → ℤ
next_generation d = wrap (generation d +ℤ pos 1)

-- What setup draws.
pub record Drawn : Type 0 where
  pub secret : Text
  pub user_id : Text
  pub supervisor_id : Text
  pub signing_key : Text
  pub totp_secret : Text

-- A pending factor's secret, as `Enrollment` shows it.
abbrev pub Enrollment : Type 0
Enrollment = Text

abbrev pub valid_codes : Option CodeSet → Bool
valid_codes none = false
valid_codes (some s) = validated s

abbrev pub factor_in : Member Factor → Result Factor
factor_in (held f) = ok f
factor_in _ = err totp

abbrev pub codes_in : Member (Option CodeSet) → Result CodeSet
codes_in (held (some s)) = ok s
codes_in _ = err totp

abbrev pub is_locked_in : Member Factor → ℤ → Bool
is_locked_in (held f) now = is_locked f now
is_locked_in _ now = false

abbrev pub salt_of : Member (Option CodeSet) → Option Text
salt_of (held (some s)) = as_str s.salt
salt_of _ = none

abbrev pub begun : Text → Drawn → ℤ → Data → Option Text → Result (Data × Enrollment)
begun verifier drawn now d none = err totp
begun verifier drawn now d (some shown) = ok (
  record d {
    password_verifier = some (text verifier);
    session_secret = some (text drawn.secret);
    supervisor_id = some (text drawn.supervisor_id);
    supervisor_signing_key = some (text drawn.signing_key);
    auth_version = some (int (pos 1));
    factor_generation = some (int (pos 1));
    webauthn_user_id = some (text drawn.user_id);
    created = some (int now);
    passkeys = held [];
    totp = held (new_record drawn.totp_secret now);
    second_factor_failures =
        held (record { since_sign_in = int (pos 0); unacknowledged = int (pos 0) });
    recovery_codes = held none;
  },
  shown,
)

abbrev pub resumed : Data → Factor × Option Text → Result (Data × Enrollment)
resumed d (f, none) = err totp
resumed d (f, some shown) = ok (record d { totp = held f }, shown)

-- The record after a verified attempt.
abbrev pub attempted : Ceremony → Verification → Data → Data
attempted ceremony invalid d = second_factor_refused d
attempted ceremony locked d = second_factor_refused d
attempted operation accepted d = d
attempted ceremony accepted d = signed_in d
attempted ceremony _ d = d

abbrev pub completed : Ceremony → Option CodeSet → Text → Verification → Data → Data
completed ceremony codes secret accepted d =
    if enrolls ceremony
    then rotated (next_generation d) secret (record d { recovery_codes = held codes })
    else d
completed ceremony codes secret _ d = d

abbrev pub verified :
    Ceremony
    → Option CodeSet
    → Text
    → Data
    → Option (Factor × Verification)
    → Result (Data × Verification)
verified ceremony codes secret d none = err totp
verified ceremony codes secret d (some (f, result)) = ok (
  completed ceremony codes secret result (attempted ceremony result (record d { totp = held f })),
  result,
)

abbrev pub is_expected : Option ℤ → ℤ → Bool
is_expected none n = true
is_expected (some expected) n = is_int expected (some (int n))

abbrev pub has_codes : AuthState → Bool
has_codes configured = true
has_codes recovery_enrollment = true
has_codes _ = false

abbrev pub replaced_factor :
    Text → Factor → ℤ → Data → Option Text → Result (Data × (Verification × Option Enrollment))
replaced_factor secret f next d none = err totp
replaced_factor secret f next d (some shown) =
    ok (rotated next secret (record d { totp = held f }), (accepted, some shown))

abbrev pub refusal : ℤ → Data → Member Factor → Result (Data × (Verification × Option Enrollment))
refusal now d (held f) =
    let (f', result) = record_failure now f in ok (record d { totp = held f' }, (result, none))
refusal now d _ = err totp

abbrev pub is_salt : Option Text → Text → Bool
is_salt none t = false
is_salt (some s) t = same s t

abbrev pub replace_in : CodeSet → Data → AuthState → Result (Data × Unit {0})
replace_in codes d state =
    if is_state state configured
    then ok (
      record d {
        recovery_codes = held (some codes);
        factor_generation = some (int (next_generation d));
      },
      tt,
    )
    else err totp

abbrev pub not_negative : ℤ → ℤ
not_negative (pos n) = pos n
not_negative (negsuc n) = pos 0

abbrev pub acknowledged : ℤ → Member Failures → Member Failures
acknowledged count (held f) =
    held
      (record f { unacknowledged = int (not_negative (wrap (unacknowledged (held f) -ℤ count))) })
acknowledged count m = m

abbrev pub acknowledge_in : ℤ → Data → AuthState → Result (Data × Unit {0})
acknowledge_in count d state =
    if is_state state configured
    then ok (record d { second_factor_failures = acknowledged count d.second_factor_failures }, tt)
    else err password_record

module _ (X : Libraries) where
  abbrev pub setup_unset : Text → Drawn → ℤ → Data → Option Bool → Result (Data × Enrollment)
  setup_unset verifier drawn now d none = err password_record
  setup_unset verifier drawn now d (some true) = err already_configured
  setup_unset verifier drawn now d (some false) =
      if has_value d.session_secret
        || has_value d.supervisor_id
        || has_value d.supervisor_signing_key
        || has_value d.created
      then err authority
      else begun verifier drawn now d (enrollment X.base32 (new_record drawn.totp_secret now))

  unfoldable pub set_up : Text → Drawn → ℤ → Data → Result (Data × Enrollment)
  set_up verifier drawn now d =
      setup_unset verifier drawn now d (password_set X.hex d.password_verifier)

  abbrev pub resume_in : ℤ → Data → AuthState → Result (Data × Enrollment)
  resume_in now d state =
      if is_state state enrollment_required
      then (factor_in d.totp >>= λ f. resumed d (resume X.base32 now f))
      else err totp

  unfoldable pub resume_enrollment : ℤ → Data → Result (Data × Enrollment)
  resume_enrollment now d = authentication_state X d >>= resume_in now d

  abbrev pub attempt_factor :
      Value
      → Ceremony
      → Option CodeSet
      → Text
      → ℤ
      → Data
      → Result Factor
      → Result (Data × Verification)
  attempt_factor code ceremony codes secret now d factor =
      factor >>= λ f. verified ceremony codes secret d (verify X.hmac X.base32 code now f)

  -- The last argument is whether the generation is the expected one.
  abbrev pub attempt_under :
      Value → Ceremony → Option CodeSet → Text → ℤ → Data → Bool → Result (Data × Verification)
  attempt_under code ceremony codes secret now d false = ok (d, changed)
  attempt_under code ceremony codes secret now d true =
      attempt_factor code ceremony codes secret now d (factor_in d.totp)

  abbrev pub attempt_in :
      Value
      → Ceremony
      → Option ℤ
      → Option CodeSet
      → Text
      → ℤ
      → Data
      → AuthState
      → Result (Data × Verification)
  attempt_in code ceremony expected codes secret now d state =
      if is_state state (requires ceremony)
      then attempt_under code ceremony codes secret now d (is_expected expected (generation d))
      else err totp

  unfoldable pub attempt_totp :
      Value → Ceremony → Option ℤ → Option CodeSet → Text → ℤ → Data → Result (Data × Verification)
  attempt_totp code ceremony expected codes secret now d =
      authentication_state X d >>= attempt_in code ceremony expected codes secret now d

  abbrev pub spent :
      Text
      → Text
      → ℤ
      → ℤ
      → Data
      → Option (CodeSet × Bool)
      → Result (Data × (Verification × Option Enrollment))
  spent fresh secret expected now d none = err totp
  spent fresh secret expected now d (some (s, false)) =
      refusal now (second_factor_refused (record d { recovery_codes = held (some s) })) d.totp
  spent fresh secret expected now d (some (s, true)) =
      replaced_factor secret (new_record fresh now) (wrap (expected +ℤ pos 1))
        (record d { recovery_codes = held (some s) }) (enrollment X.base32 (new_record fresh now))

  abbrev pub spend_codes :
      Candidate
      → ℤ
      → Text
      → Text
      → ℤ
      → Data
      → Result CodeSet
      → Result (Data × (Verification × Option Enrollment))
  spend_codes derived expected fresh secret now d stored =
      stored >>= λ s. spent fresh secret expected now d (spend derived now s)

  -- The last argument is whether the factor is locked.
  abbrev pub spend_unless :
      Candidate
      → ℤ
      → Text
      → Text
      → ℤ
      → Data
      → Bool
      → Result (Data × (Verification × Option Enrollment))
  spend_unless derived expected fresh secret now d true =
      ok (second_factor_refused d, (locked, none))
  spend_unless derived expected fresh secret now d false =
      spend_codes derived expected fresh secret now d (codes_in d.recovery_codes)

  -- The last argument is whether the generation and the salt are the candidate's.
  abbrev pub spend_under :
      Candidate
      → ℤ
      → Text
      → Text
      → ℤ
      → Data
      → Bool
      → Result (Data × (Verification × Option Enrollment))
  spend_under derived expected fresh secret now d false = ok (d, (changed, none))
  spend_under derived expected fresh secret now d true =
      spend_unless derived expected fresh secret now d (is_locked_in d.totp now)

  abbrev pub spend_in :
      Candidate
      → ℤ
      → Text
      → Text
      → ℤ
      → Data
      → AuthState
      → Result (Data × (Verification × Option Enrollment))
  spend_in derived expected fresh secret now d state =
      if has_codes state
      then spend_under derived expected fresh secret now d (
          is_expected (some expected) (generation d)
          && is_salt (salt_of d.recovery_codes) derived.salt)
      else err totp

  unfoldable pub spend_code :
      Candidate → ℤ → Text → Text → ℤ → Data → Result (Data × (Verification × Option Enrollment))
  spend_code derived expected fresh secret now d =
      authentication_state X d >>= spend_in derived expected fresh secret now d

  unfoldable pub replace_codes : CodeSet → Data → Result (Data × Unit {0})
  replace_codes codes d = authentication_state X d >>= replace_in codes d

  unfoldable pub acknowledge : ℤ → Data → Result (Data × Unit {0})
  acknowledge count d = authentication_state X d >>= acknowledge_in count d
