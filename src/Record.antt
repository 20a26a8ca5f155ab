-- ===== src/Record.antt =====
-- backend/src/record/mod.rs: the private store, `admin.json`. Its JSON object is a record of the
-- members that the code reads; `Member` says what a member is that is no plain value. What the file
-- system does is an argument: the store keeps what reading the file gives.
pub mod State
mod Tests
pub mod Factors
pub mod Operations
pub mod Credentials
pub mod Passkeys
pub mod Transaction
pub mod Phases
pub mod Stale
pub mod Once
pub mod Resets
use shimpz_admin.Prelude.{
  ℕ, ite, Bool, true, false, not, List, [], ◌∷◌, Option, none, some, Text, Text-discrete,
  ℕ_discrete, Option-discrete, if◌then◌else◌,
}
use shimpz_admin.Prelude.Int.{ℤ}
use shimpz_admin.Signin.Totp.{Value, Factor}
use shimpz_admin.Signin.Recovery.{CodeSet}
use shimpz_admin.Signin.Passkeys.{PasskeyError}
use shimpz_admin.Signin.Sessions.{Sessions, Ended, nothing, end_all}

pub data StateError : Type 0 where
  corrupt io password_record totp : StateError
  passkey : PasskeyError → StateError
  authority rotation already_configured credential audit : StateError

pub data Result {ℓ} (A : Type ℓ) : Type ℓ where
  ok : A → Result A
  err : StateError → Result A

infixl 1 ◌>>=◌
abbrev pub ◌>>=◌ {ℓ κ} : {A : Type ℓ} {B : Type κ} → Result A → (A → Result B) → Result B
ok a >>= f = f a
err e >>= f = err e

-- `ok_or`.
abbrev pub ok_or {ℓ} : {A : Type ℓ} → StateError → Option A → Result A
ok_or e none = err e
ok_or e (some a) = ok a

-- No such member, a member of another shape, or what it holds.
pub data Member {ℓ} (A : Type ℓ) : Type ℓ where
  missing unfit : Member A
  held : A → Member A

-- `second_factor_failures`, an object of exactly these members.
pub record Failures : Type 0 where
  pub since_sign_in : Value
  pub unacknowledged : Value

-- A stored passkey: an object of exactly these members; a flag is `none` where it is no Boolean.
pub record Passkey : Type 0 where
  pub credential_id : Value
  pub public_key : Value
  pub sign_count : Value
  pub backup_eligible : Option Bool
  pub backup_state : Option Bool
  pub rp_id : Value
  pub origin : Value
  pub status : Value
  pub created_at : Value
  pub updated_at : Value
  pub last_used_at : Value

-- A consumed host reset capability, an object of exactly these members.
pub record HostReset : Type 0 where
  pub digest : Value
  pub expires_at : Value

-- An item of a list is `none` where it is no such object; `held none` is a member that is null.
pub record Data : Type 0 where
  pub password_verifier : Option Value
  pub session_secret : Option Value
  pub supervisor_id : Option Value
  pub supervisor_signing_key : Option Value
  pub auth_version : Option Value
  pub factor_generation : Option Value
  pub webauthn_user_id : Option Value
  pub created : Option Value
  pub passkeys : Member (List (Option Passkey))
  pub totp : Member Factor
  pub second_factor_failures : Member Failures
  pub recovery_codes : Member (Option CodeSet)
  pub consumed_host_resets : Member (List (Option HostReset))
  -- The members that none of the modelled code reads.
  pub others : List (Text × Value)

-- What libraries provide: hexadecimal, base32, HMAC-SHA-1, and the test of an IPv4 address.
pub record Libraries : Type 0 where
  pub hex : Text → Option Text
  pub base32 : Text → Option Text
  pub hmac : Text → Text → Text
  pub is_ipv4 : Text → Bool

unfoldable pub Value-discrete : Discrete Value
unfolding Text-discrete ℕ_discrete
Value-discrete = hlevel (Text-discrete, ℕ_discrete)

-- The store of a process, with the journal that its transactions record in.
pub record Store {ℓ} (J : Type ℓ) : Type ℓ where
  pub content : Result Data
  pub sessions : Sessions
  pub journal : J

-- What `write_locked` meets: the file is replaced; it is not; or it is replaced, and what follows the
-- rename fails.
pub data Disk : Type 0 where
  replaced kept unconfirmed : Disk

-- What a journal callback does: its journal, and the error with which it refuses.
abbrev pub Journal {ℓ κ} : Type ℓ → Type κ → Type (ℓ ⊔ κ)
Journal J R = R → J → J × Option StateError

abbrev pub is_rotated : Data → Data → Bool
is_rotated d d' = ite (Option-discrete Value-discrete d'.session_secret d.session_secret) false true

-- What a transaction returns: the store, its result, and what the sessions' listeners hear.
abbrev pub Outcome {ℓ κ} : Type ℓ → Type κ → Type (ℓ ⊔ κ)
Outcome J R = Store J × Result R × Ended

module _ {ℓ κ} {J : Type ℓ} {R : Type κ} where
  abbrev pub saved : Bool → Data → R → Store J → Outcome J R
  saved true d r s =
      let (sessions, ended) = end_all s.sessions in
      (record s { content = ok d; sessions = sessions }, ok r, ended)
  saved false d r s = (record s { content = ok d }, ok r, nothing)

  abbrev pub write : Disk → Data → Data → R → Store J → Outcome J R
  write replaced d d' r s = saved (is_rotated d d') d' r s
  write kept d d' r s = (s, err io, nothing)
  write unconfirmed d d' r s = (record s { content = ok d' }, err io, nothing)

  abbrev pub recorded : Disk → Data → Data → R → Store J → J × Option StateError → Outcome J R
  recorded disk d d' r s (j, none) = write disk d d' r (record s { journal = j })
  recorded disk d d' r s (j, some e) = (record s { journal = j }, err e, nothing)

  abbrev pub persist : Disk → Option (Journal J R) → Data → Data → R → Store J → Outcome J R
  persist disk none d d' r s = write disk d d' r s
  persist disk (some journal) d d' r s = recorded disk d d' r s (journal r s.journal)

  abbrev pub updated :
      Disk → (R → Bool) → Option (Journal J R) → Data → Store J → Result (Data × R) → Outcome J R
  updated disk should_write journal d s (err e) = (s, err e, nothing)
  updated disk should_write journal d s (ok (d', r)) =
      if should_write r then persist disk journal d d' r s else (s, ok r, nothing)

  abbrev pub mutate_read :
      Disk
      → (Data → Result (Data × R))
      → (R → Bool)
      → Option (Journal J R)
      → Store J
      → Result Data
      → Outcome J R
  mutate_read disk update should_write journal s (err e) = (s, err e, nothing)
  mutate_read disk update should_write journal s (ok d) =
      updated disk should_write journal d s (update d)

  -- `Store::mutate`.
  unfoldable pub mutate :
      Disk → (Data → Result (Data × R)) → (R → Bool) → Option (Journal J R) → Store J → Outcome J R
  mutate disk update should_write journal s =
      mutate_read disk update should_write journal s s.content

  -- `Store::mutate_always`.
  unfoldable pub mutate_always : Disk → (Data → Result (Data × R)) → Store J → Outcome J R
  mutate_always disk update s = mutate disk update (λ _. true) none s
