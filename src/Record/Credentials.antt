-- ===== src/Record/Credentials.antt =====
-- backend/src/record/factors.rs: the passkeys in the store. A verified assertion and what is drawn are
-- arguments.
use shimpz_admin.Prelude.{
  ℕ, zero, suc, ◌+◌, Bool, true, false, not, ◌&&◌, ◌||◌, List, [], ◌∷◌, ◌++◌, Option, none, some,
  Text, codes, length, keep, get_elem?, leb, ite, if◌then◌else◌,
}
use shimpz_admin.Prelude.Int.{ℤ, pos, ◌+ℤ◌, ltb_ℤ, wrap}
use shimpz_admin.Signin.Totp.{Value, int, text, as_int, int_or_zero}
use shimpz_admin.Signin.Passkeys.{PasskeyError, max_passkeys}
use shimpz_admin.Record.{
  passkey, Result, ok, err, ◌>>=◌, Member, held, Passkey, Data, Libraries, Value-discrete,
}
use shimpz_admin.Record.State.{
  AuthState, configured, authentication_state, validated_passkeys, is_status, active_status,
  suspended_status, is_set, is_int,
}
use shimpz_admin.Record.Factors.{is_state, generation, rotated, signed_in}
use shimpz_admin.Record.Operations.{secret_of}

-- A verified assertion.
pub record Authentication : Type 0 where
  pub credential_id : Text
  pub new_sign_count : ℤ
  pub backup_eligible : Bool
  pub backup_state : Bool

abbrev pub is_active : Option Passkey → Bool
is_active none = false
is_active (some k) = is_status active_status k.status

abbrev is_at : Text → Text → Option Passkey → Bool
is_at origin rp_id none = false
is_at origin rp_id (some k) = is_status origin k.origin && is_status rp_id k.rp_id

abbrev pub active_matching : Text → Text → List (Option Passkey) → List (Option Passkey)
active_matching origin rp_id ks = keep (λ k. is_active k && is_at origin rp_id k) ks

abbrev pub list_of : Member (List (Option Passkey)) → List (Option Passkey)
list_of (held ks) = ks
list_of _ = []

-- The list, unless its validation has an error.
abbrev pub checked :
    Member (List (Option Passkey)) → Option PasskeyError → Result (List (Option Passkey))
checked m (some e) = err (passkey e)
checked m none = ok (list_of m)

abbrev pub conflict {ℓ} : {A : Type ℓ} → Text → Result A
conflict message = err (passkey (PasskeyError.conflict message))

abbrev pub factors_changed : Text
factors_changed = codes "authentication factors changed; retry"

abbrev pub passkey_unavailable : Text
passkey_unavailable = codes "passkey is unavailable"

abbrev pub passkey_changed : Text
passkey_changed = codes "passkey changed; retry"

abbrev pub names : Text → Option Passkey → Bool
names t none = false
names t (some k) = is_status t k.credential_id

abbrev pub any_names : Value → List (Option Passkey) → Bool
any_names (text t) [] = false
any_names (text t) (k ∷ ks) = names t k || any_names (text t) ks
any_names _ ks = false

-- The indices of the passkeys with an id.
abbrev pub matches_from : Text → ℕ → List (Option Passkey) → List ℕ
matches_from t i [] = []
matches_from t i (k ∷ ks) =
    let rest = matches_from t (i + 1) ks in if names t k then i ∷ rest else rest

abbrev pub put_at : ℕ → Passkey → List (Option Passkey) → List (Option Passkey)
put_at i k [] = []
put_at zero k (x ∷ xs) = some k ∷ xs
put_at (suc i) k (x ∷ xs) = x ∷ put_at i k xs

abbrev pub equal_value : Value → Value → Bool
equal_value v w = ite (Value-discrete v w) true false

abbrev equal_flag : Option Bool → Option Bool → Bool
equal_flag (some true) (some true) = true
equal_flag (some false) (some false) = true
equal_flag none none = true
equal_flag _ _ = false

-- `json::equal` of two passkeys.
abbrev pub equal_passkey : Option Passkey → Passkey → Bool
equal_passkey none l = false
equal_passkey (some k) l =
    equal_value k.credential_id l.credential_id
    && equal_value k.public_key l.public_key
    && equal_value k.sign_count l.sign_count
    && equal_flag k.backup_eligible l.backup_eligible
    && equal_flag k.backup_state l.backup_state
    && equal_value k.rp_id l.rp_id
    && equal_value k.origin l.origin
    && equal_value k.status l.status
    && equal_value k.created_at l.created_at
    && equal_value k.updated_at l.updated_at
    && equal_value k.last_used_at l.last_used_at

abbrev pub sign_count : Passkey → ℤ
sign_count k = int_or_zero (as_int k.sign_count)

abbrev pub counter_regressed : Passkey → Authentication → Bool
counter_regressed k a = ltb_ℤ (pos 0) (sign_count k) && not (ltb_ℤ (sign_count k) a.new_sign_count)

abbrev differs : Bool → Bool → Bool
differs true b = not b
differs false b = b

abbrev pub identity_changed : Passkey → Authentication → Bool
identity_changed k a =
    differs a.backup_eligible (is_set k.backup_eligible) || a.backup_state && not a.backup_eligible

-- `applied_assertion`: the passkey after it, and why it is suspended.
unfoldable pub applied_assertion : Passkey → Authentication → ℤ → Passkey × Option Text
applied_assertion k a now =
    let used = record k { last_used_at = int now; updated_at = int now } in
    if counter_regressed k a
    then (record used { status = text suspended_status }, some (codes "counter-regression"))
    else if identity_changed k a
    then (record used { status = text suspended_status }, some (codes "backup-identity-change"))
    else (
      record used { sign_count = int a.new_sign_count; backup_state = some a.backup_state },
      none,
    )

-- The session secret after an assertion, and why it suspended the passkey.
abbrev pub PasskeyCommit : Type 0
PasskeyCommit = Text × Option Text

abbrev pub committed :
    ℤ → Bool → Text → Data → List (Option Passkey) → Option Text → Data × PasskeyCommit
committed expected sign_in secret d ks (some reason) = (
  rotated (wrap (expected +ℤ pos 1)) secret (record d { passkeys = held ks }),
  (secret, some reason),
)
committed expected sign_in secret d ks none =
    let d' = record d { passkeys = held ks } in
    (if sign_in then signed_in d' else d', (secret_of d.session_secret, none))

abbrev pub commit_at :
    Passkey
    → Authentication
    → ℤ
    → Bool
    → Text
    → ℤ
    → Data
    → List (Option Passkey)
    → ℕ
    → Option (Option Passkey)
    → Result (Data × PasskeyCommit)
commit_at original a expected sign_in secret now d ks i (some (some k)) =
    if equal_passkey (some k) original
    then (let (k', reason) = applied_assertion k a now in
        ok (committed expected sign_in secret d (put_at i k' ks) reason))
    else conflict passkey_changed
commit_at original a expected sign_in secret now d ks i _ = conflict passkey_changed

abbrev pub commit_matching :
    Passkey
    → Authentication
    → ℤ
    → Bool
    → Text
    → ℤ
    → Data
    → List (Option Passkey)
    → List ℕ
    → Result (Data × PasskeyCommit)
commit_matching original a expected sign_in secret now d ks (i ∷ []) =
    commit_at original a expected sign_in secret now d ks i (get_elem? ks i)
commit_matching original a expected sign_in secret now d ks _ = conflict passkey_changed

-- The change of `add_passkey`.
abbrev pub added : Passkey → ℤ → Text → Data → List (Option Passkey) → Result (Data × Text)
added k expected secret d active =
    if leb max_passkeys (length active) || any_names k.credential_id active
    then conflict passkey_unavailable
    else ok (
      rotated (wrap (expected +ℤ pos 1)) secret
          (record d { passkeys = held (active ++ some k ∷ []) }),
      secret,
    )

module _ (X : Libraries) where
  abbrev pub is_open : AuthState → ℤ → Data → Bool
  is_open state expected d =
      is_state state configured && is_int expected (some (int (generation d)))

  abbrev pub passkeys_of : Data → Result (List (Option Passkey))
  passkeys_of d = checked d.passkeys (validated_passkeys X.is_ipv4 d.passkeys)

  abbrev pub commit_in :
      Passkey
      → Authentication
      → ℤ
      → Bool
      → Text
      → ℤ
      → Data
      → AuthState
      → Result (Data × PasskeyCommit)
  commit_in original a expected sign_in secret now d state =
      if is_open state expected d
      then (passkeys_of d >>= λ ks.
          commit_matching original a expected sign_in secret now d ks
            (matches_from a.credential_id 0 ks))
      else conflict factors_changed

  -- `commit_assertion`.
  unfoldable pub commit_assertion :
      Passkey → Authentication → ℤ → Bool → Text → ℤ → Data → Result (Data × PasskeyCommit)
  commit_assertion original a expected sign_in secret now d =
      authentication_state X d >>= commit_in original a expected sign_in secret now d

  abbrev pub add_in : Passkey → ℤ → Text → Data → AuthState → Result (Data × Text)
  add_in k expected secret d state =
      if is_open state expected d
      then (passkeys_of d >>= λ ks. added k expected secret d (keep is_active ks))
      else conflict factors_changed

  unfoldable pub add_record : Passkey → ℤ → Text → Data → Result (Data × Text)
  add_record k expected secret d = authentication_state X d >>= add_in k expected secret d
