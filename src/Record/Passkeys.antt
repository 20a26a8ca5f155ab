-- ===== src/Record/Passkeys.antt =====
-- backend/src/record/factors.rs: the store's operations on passkeys, each one transaction.
use shimpz_admin.Prelude.{
  Bool, true, List, [], ◌∷◌, Option, none, some, Text, codes, length, keep, leb, if◌then◌else◌,
}
use shimpz_admin.Prelude.Int.{ℤ}
use shimpz_admin.Signin.Passkeys.{PasskeyError, max_passkeys, rp_id_for_origin}
use shimpz_admin.Signin.Sessions.{nothing}
use shimpz_admin.Record.{
  passkey, Result, ok, err, ◌>>=◌, Passkey, Libraries, Store, Disk, Journal, Outcome, mutate,
}
use shimpz_admin.Record.State.{authentication_state, validated_passkey}
use shimpz_admin.Record.Credentials.{
  Authentication, PasskeyCommit, is_active, active_matching, names, passkeys_of, add_record,
  commit_assertion,
}

abbrev unavailable {ℓ} : {A : Type ℓ} → Text → Result A
unavailable message = err (passkey (PasskeyError.unavailable message))

abbrev at_address : Option Text → Result Text
at_address none = unavailable (codes "passkeys are unavailable at this Admin address")
at_address (some rp_id) = ok rp_id

abbrev only_one : List (Option Passkey) → Result (Option Passkey)
only_one (k ∷ []) = ok k
only_one _ = unavailable (codes "invalid passkey authentication")

abbrev with_room : Text → Text → List (Option Passkey) → Result (List (Option Passkey))
with_room origin rp_id ks =
    if leb max_passkeys (length (keep is_active ks))
    then unavailable (codes "maximum passkey count reached")
    else ok (active_matching origin rp_id ks)

module _ {ℓ} {J : Type ℓ} (X : Libraries) where
  unfoldable pub active_passkeys : Text → Store J → Result (List (Option Passkey))
  active_passkeys origin s = at_address (rp_id_for_origin X.is_ipv4 origin) >>= λ rp_id.
      s.content >>= λ d. authentication_state X d >>= λ _.
      passkeys_of X d >>= λ ks. ok (active_matching origin rp_id ks)

  unfoldable pub passkeys_for_registration : Text → Store J → Result (List (Option Passkey))
  passkeys_for_registration origin s = at_address (rp_id_for_origin X.is_ipv4 origin) >>= λ rp_id.
      s.content >>= λ d.
      authentication_state X d >>= λ _. passkeys_of X d >>= with_room origin rp_id

  unfoldable pub passkey_for_authentication : Text → Text → Store J → Result (Option Passkey)
  passkey_for_authentication credential_id origin s =
      active_passkeys origin s >>= λ ks. only_one (keep (names credential_id) ks)

  abbrev pub unless_invalid {κ} :
      {R : Type κ} → Option PasskeyError → Outcome J R → Store J → Outcome J R
  unless_invalid none o s = o
  unless_invalid (some e) o s = (s, err (passkey e), nothing)

  -- With the session secret that it draws.
  unfoldable pub add_passkey : Disk → Passkey → ℤ → Text → Journal J Text → Store J → Outcome J Text
  add_passkey disk k expected secret journal s =
      unless_invalid (validated_passkey X.is_ipv4 (some k))
        (mutate disk (add_record X k expected secret) (λ _. true) (some journal) s) s

  -- With the session secret that a suspension draws.
  unfoldable pub commit_passkey_authentication :
      Disk
      → Passkey
      → Authentication
      → ℤ
      → Bool
      → Text
      → Journal J PasskeyCommit
      → ℤ
      → Store J
      → Outcome J PasskeyCommit
  commit_passkey_authentication disk original a expected sign_in secret journal now s =
      unless_invalid (validated_passkey X.is_ipv4 (some original))
        (mutate disk (commit_assertion X original a expected sign_in secret now) (λ _. true)
          (some journal) s)
        s
