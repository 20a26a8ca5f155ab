-- ===== src/Record/State.antt =====
-- backend/src/record/classify.rs: the authentication state that a stored record is in.
use shimpz_admin.Prelude.{
  ℕ, Bool, true, false, not, ◌&&◌, ◌||◌, List, [], ◌∷◌, ◌++◌, Option, none, some, Text, codes, map,
  length, leb, ◌==◌, if◌then◌else◌,
}
use shimpz_admin.Prelude.Int.{ℤ, pos, ltb_ℤ}
use shimpz_admin.Protocol.Origin.{same}
use shimpz_admin.Signin.Totp.{
  Value, null, int, text, other, Factor, Status, pending, active, as_int, as_str, status_of,
}
use shimpz_admin.Signin.Recovery.{CodeSet, hex64, distinct_count, text_or_empty, is_among}
use shimpz_admin.Signin.Passkeys.{PasskeyError, max_passkeys, identifier, rp_id_for_origin}
use shimpz_admin.Signin.Password.{password_set}
use shimpz_admin.Record.{
  corrupt, password_record, Result, ok, err, Member, missing, held, Failures, Passkey, HostReset,
  Data, Libraries, Store, ◌>>=◌,
}
use shimpz_admin.Signin.Totp as Totp
use shimpz_admin.Signin.Recovery as Recovery

abbrev pub auth_version : ℕ
auth_version = 1

abbrev pub max_second_factor_failures : ℕ
max_second_factor_failures = 1000000

abbrev pub max_consumed_host_resets : ℕ
max_consumed_host_resets = 128

pub data AuthState : Type 0 where
  uninitialized enrollment_required configured recovery_enrollment recovery_required : AuthState

abbrev pub hex : Option Value → Bool
hex none = false
hex (some v) = hex64 v

abbrev pub non_negative : Value → Option ℤ
non_negative (int n) = if ltb_ℤ n (pos 0) then none else some n
non_negative _ = none

abbrev pub has_value {ℓ} : {A : Type ℓ} → Option A → Bool
has_value none = false
has_value (some a) = true

abbrev pub names_key : Value → Bool
names_key (text t) = identifier t
names_key _ = false

abbrev pub is_set : Option Bool → Bool
is_set (some b) = b
is_set none = false

abbrev pub active_status : Text
active_status = codes "active"

abbrev pub suspended_status : Text
suspended_status = codes "suspended"

abbrev pub is_status : Text → Value → Bool
is_status status (text t) = same t status
is_status status _ = false

-- `created_at`, `updated_at` and `last_used_at`, which are in order.
abbrev pub times_fit : Option ℤ → Option ℤ → Option ℤ → Bool
times_fit (some created) (some updated) (some used) =
    not (ltb_ℤ updated created) && not (ltb_ℤ used created)
times_fit _ _ _ = false

abbrev is_text : Text → Option Text → Bool
is_text t none = false
is_text t (some u) = same u t

module _ (is_ipv4 : Text → Bool) where
  abbrev pub origin_fits : Value → Value → Bool
  origin_fits (text origin) (text rp_id) = is_text rp_id (rp_id_for_origin is_ipv4 origin)
  origin_fits _ _ = false

  abbrev pub shape_fits : Passkey → Bool
  shape_fits k =
      times_fit (non_negative k.created_at) (non_negative k.updated_at)
        (non_negative k.last_used_at)
      && names_key k.credential_id
      && names_key k.public_key
      && has_value (non_negative k.sign_count)
      && has_value k.backup_eligible
      && has_value k.backup_state
      && (not (is_set k.backup_state) || is_set k.backup_eligible)
      && (is_status active_status k.status || is_status suspended_status k.status)

  -- `validated_passkey`: no error, or the one it returns.
  abbrev pub passkey_error : Option Passkey → Option PasskeyError
  passkey_error none = some (PasskeyError.invalid (codes "stored passkey is invalid"))
  passkey_error (some k) =
      if not (shape_fits k)
      then some (PasskeyError.invalid (codes "stored passkey is invalid"))
      else if not (origin_fits k.origin k.rp_id)
      then some (PasskeyError.invalid (codes "stored passkey origin is invalid"))
      else none

  unfoldable pub validated_passkey : Option Passkey → Option PasskeyError
  validated_passkey item = passkey_error item

  -- The first error among the items.
  abbrev first_error : Option PasskeyError → Option PasskeyError → Option PasskeyError
  first_error none later = later
  first_error (some e) later = some e

  abbrev pub items_error : List (Option Passkey) → Option PasskeyError
  items_error [] = none
  items_error (k ∷ ks) = first_error (validated_passkey k) (items_error ks)

abbrev pub stored_passkeys_invalid : PasskeyError
stored_passkeys_invalid = PasskeyError.invalid (codes "stored passkeys are invalid")

abbrev pub credential_of : Option Passkey → Text
credential_of none = []
credential_of (some k) = text_or_empty (as_str k.credential_id)

module _ (is_ipv4 : Text → Bool) where
  abbrev pub list_error : List (Option Passkey) → Option PasskeyError → Option PasskeyError
  list_error ks (some e) = some e
  list_error ks none =
      if distinct_count (map credential_of ks) == length ks
      then none
      else some stored_passkeys_invalid

  abbrev pub passkeys_error : Member (List (Option Passkey)) → Option PasskeyError
  passkeys_error (held ks) =
      if leb (length ks) max_passkeys
      then list_error ks (items_error is_ipv4 ks)
      else some stored_passkeys_invalid
  passkeys_error _ = some stored_passkeys_invalid

  -- `validated_passkeys`: its error, where it has one.
  unfoldable pub validated_passkeys : Member (List (Option Passkey)) → Option PasskeyError
  validated_passkeys m = passkeys_error m

abbrev pub in_counter : Value → Bool
in_counter (int n) = not (ltb_ℤ n (pos 0)) && not (ltb_ℤ (pos max_second_factor_failures) n)
in_counter _ = false

-- `second_factor_failures`.
abbrev pub counters_fit : Member Failures → Bool
counters_fit (held f) = in_counter f.since_sign_in && in_counter f.unacknowledged
counters_fit _ = false

abbrev pub is_known : Text → List (Text × ℤ) → Bool
is_known t [] = false
is_known t ((known, expires) ∷ seen) = same known t || is_known t seen

abbrev pub reset_of : Value → Value → Option (Text × ℤ)
reset_of (text t) (int at) = if hex64 (text t) && not (ltb_ℤ at (pos 1)) then some (t, at) else none
reset_of _ _ = none

abbrev pub reset_item : Option HostReset → Option (Text × ℤ)
reset_item none = none
reset_item (some r) = reset_of r.digest r.expires_at

abbrev pub next_seen : List (Text × ℤ) → Option (Text × ℤ) → Option (List (Text × ℤ))
next_seen seen none = none
next_seen seen (some (t, at)) = if is_known t seen then none else some (seen ++ (t, at) ∷ [])

-- The loop of `consumed_host_resets`, with the records seen so far.
abbrev pub resets_from :
    List (Option HostReset) → Option (List (Text × ℤ)) → Option (List (Text × ℤ))
resets_from [] seen = seen
resets_from (r ∷ rs) none = none
resets_from (r ∷ rs) (some seen) = resets_from rs (next_seen seen (reset_item r))

-- `consumed_host_resets`; no result is its error.
unfoldable pub consumed_host_resets : Member (List (Option HostReset)) → Option (List (Text × ℤ))
consumed_host_resets (held rs) =
    if leb (length rs) max_consumed_host_resets then resets_from rs (some []) else none
consumed_host_resets _ = none

abbrev is_missing {ℓ} : {A : Type ℓ} → Member A → Bool
is_missing missing = true
is_missing _ = false

abbrev no_value : Option Value → Bool
no_value none = true
no_value (some v) = false

abbrev no_others : List (Text × Value) → Bool
no_others [] = true
no_others (m ∷ ms) = false

-- A record without any member but the consumed host resets.
abbrev pub is_bare : Data → Bool
is_bare d =
    no_value d.password_verifier
    && no_value d.session_secret
    && no_value d.supervisor_id
    && no_value d.supervisor_signing_key
    && no_value d.auth_version
    && no_value d.factor_generation
    && no_value d.webauthn_user_id
    && no_value d.created
    && is_missing d.passkeys
    && is_missing d.totp
    && is_missing d.second_factor_failures
    && is_missing d.recovery_codes
    && no_others d.others

abbrev evidence : Option (List (Text × ℤ)) → Result AuthState
evidence none = err corrupt
evidence (some seen) = ok uninitialized

abbrev resets_state : Member (List (Option HostReset)) → Result AuthState
resets_state missing = ok uninitialized
resets_state m = evidence (consumed_host_resets m)

abbrev pub is_int : ℤ → Option Value → Bool
is_int n (some (int m)) = not (ltb_ℤ n m) && not (ltb_ℤ m n)
is_int n _ = false

abbrev pub is_positive : Option Value → Bool
is_positive (some (int n)) = not (ltb_ℤ n (pos 1))
is_positive _ = false

abbrev pub enrolled : Status → AuthState
enrolled pending = recovery_enrollment
enrolled active = configured

-- `factor_state` of the TOTP factor's status.
abbrev pub factor_state : Status → Member (Option CodeSet) → Result AuthState
factor_state pending (held none) = ok enrollment_required
factor_state active (held none) = err password_record
factor_state status (held (some s)) =
    if Recovery.validated s then ok (enrolled status) else err password_record
factor_state status _ = err password_record

abbrev pub factor_of : Option Status → Member (Option CodeSet) → Result AuthState
factor_of none m = err password_record
factor_of (some status) m = factor_state status m

module _ (X : Libraries) where
  -- The status of a stored factor that meets its contract: `totp::state`.
  abbrev pub totp_status : Member Factor → Option Status
  totp_status (held f) = if Totp.validated X.base32 f then status_of f.status else none
  totp_status _ = none

  -- What every initialized record has, beside its TOTP factor and its recovery codes.
  abbrev pub is_established : Data → Bool
  is_established d =
      is_int (pos auth_version) d.auth_version
      && is_positive d.factor_generation
      && hex d.webauthn_user_id
      && hex d.session_secret
      && not (has_value (validated_passkeys X.is_ipv4 d.passkeys))
      && counters_fit d.second_factor_failures

  abbrev pub initialized_state : Bool → Data → Result AuthState
  initialized_state established d =
      if established then factor_of (totp_status d.totp) d.recovery_codes else err password_record

  abbrev pub classified : Option Bool → Data → Result AuthState
  classified none d = err password_record
  classified (some false) d =
      if is_bare d then resets_state d.consumed_host_resets else err password_record
  classified (some true) d = initialized_state (is_established d) d

  -- `authentication_state`.
  unfoldable pub authentication_state : Data → Result AuthState
  authentication_state d = classified (password_set X.hex d.password_verifier) d

  abbrev pub shown : Result AuthState → Result AuthState
  shown (err password_record) = ok recovery_required
  shown (ok recovery_enrollment) = ok configured
  shown r = r

  -- `Store::authentication_state`, `classified_authentication_state` and `factor_generation`.
  unfoldable pub stored_state {ℓ} : {J : Type ℓ} → Store J → Result AuthState
  stored_state s = s.content >>= authentication_state

  unfoldable pub public_state {ℓ} : {J : Type ℓ} → Store J → Result AuthState
  public_state s = shown (stored_state s)
