-- ===== src/Record/Phases.antt =====
-- The authentication states, taken apart.
pub mod Attempts
pub mod Codes
pub mod Spent
pub mod Changes
pub mod Commits
pub mod Invariant
pub mod Keys
pub mod Registered
use shimpz_admin.Prelude.{
  ℕ, zero, suc, ◌-◌, ◌+◌, ◌<◌, ◌^◌, ◌≡◌, refl, sym, subst, ap, ◌∙◌, ◌⊎◌, inl, inr, Bool, true,
  false, not, ◌&&◌, Option, none, some, Text, Bool-cases, Option-cases, arith, if◌then◌else◌,
}
use shimpz_admin.Prelude.Int.{ℤ, pos, negsuc, ltb_ℤ, ◌+ℤ◌, add-pos, wrap, wrap_small}
use shimpz_admin.Signin.Totp.{Value, int, text, Factor, Status, pending, active, status_of}
use shimpz_admin.Signin.Totp as Totp
use shimpz_admin.Signin.Recovery as Recovery
use shimpz_admin.Signin.Recovery.{CodeSet, hex64}
use shimpz_admin.Signin.Passkeys.{PasskeyError}
use shimpz_admin.Signin.Password.{password_set}
use shimpz_admin.Record.{Result, ok, err, Member, missing, unfit, held, Failures, Data, Libraries}
use shimpz_admin.Record.State.{
  AuthState, uninitialized, enrollment_required, configured, recovery_enrollment, auth_version, hex,
  is_int, is_positive, has_value, validated_passkeys, counters_fit, is_bare, enrolled, factor_state,
  factor_of, totp_status, is_established, classified, authentication_state,
}
use shimpz_admin.Record.Factors.{rotated, generation, next_generation}

-- The moves of the record's authentication state.
pub data Follows : AuthState → AuthState → Type 0 where
  stays : (s : AuthState) → Follows s s
  begins : Follows uninitialized enrollment_required
  enrolls : Follows enrollment_required configured
  recovers : Follows configured recovery_enrollment
  enrolls_again : Follows recovery_enrollment configured

module _ (X : Libraries) where
  -- What every record with a password has.
  pub record IsBase (d : Data) : Type 0 where
    pub password : password_set X.hex d.password_verifier ≡ some true
    pub version : is_int (pos auth_version) d.auth_version ≡ true
    pub positive : is_positive d.factor_generation ≡ true
    pub user : hex d.webauthn_user_id ≡ true
    pub secret : hex d.session_secret ≡ true
    pub keys : validated_passkeys X.is_ipv4 d.passkeys ≡ none
    pub counters : counters_fit d.second_factor_failures ≡ true

  -- A record with a password, in a state.
  pub record IsReady (d : Data) (s : AuthState) : Type 0 where
    pub base : IsBase d
    pub factor : factor_of (totp_status X d.totp) d.recovery_codes ≡ ok s

  keys_true : (o : Option PasskeyError) → not (has_value o) ≡ true → o ≡ none
  keys_true none h = refl
  keys_true (some e) h = cc

  established-IsBase :
      (d : Data)
      → password_set X.hex d.password_verifier ≡ some true
      → is_established X d ≡ true
      → IsBase d
  established-IsBase d p e = record {
    password = p;
    version = ground (arith, e);
    positive = ground (arith, e);
    user = ground (arith, e);
    secret = ground (arith, e);
    keys = keys_true (validated_passkeys X.is_ipv4 d.passkeys) (ground (arith, e));
    counters = ground (arith, e);
  }

  unset_state : (d : Data) (s : AuthState) → classified X (some false) d ≡ ok s → s ≡ uninitialized
  unset_state d s h = ground (arith, h)

  pub state_cases :
      (d : Data) (s : AuthState)
      → authentication_state X d ≡ ok s
      → ((password_set X.hex d.password_verifier ≡ some false) × (s ≡ uninitialized)) ⊎ IsReady d s
  unfolding authentication_state
  state_cases d s h = elim (Option-cases (password_set X.hex d.password_verifier)) [
    | inl e ↦ absurd (ground (arith, subst (λ o. classified X o d ≡ ok s) e h))
    | inr (false, e) ↦ inl (e, unset_state d s (subst (λ o. classified X o d ≡ ok s) e h))
    | inr (true, e) ↦
        let g = subst (λ o. classified X o d ≡ ok s) e h in
        elim (Bool-cases (is_established X d)) [
          | inl b ↦ inr (record { base = established-IsBase d e b; factor = ground (arith, g, b) })
          | inr b ↦ absurd (ground (arith, g, b))
        ]
  ]

  pub IsReady-state : (d : Data) (s : AuthState) → IsReady d s → authentication_state X d ≡ ok s
  unfolding authentication_state
  IsReady-state d s h =
      let b = h.base in
      rw (b.password, b.version, b.positive, b.user, b.secret, b.keys, b.counters) h.factor

  -- A factor that meets its contract.
  pub record IsFactor (m : Member Factor) (status : Status) : Type 0 where
    pub factor : Factor
    pub is_held : m ≡ held factor
    pub valid : Totp.validated X.base32 factor ≡ true
    pub status_fits : status_of factor.status ≡ some status

  status-IsFactor :
      (m : Member Factor) (status : Status) → totp_status X m ≡ some status → IsFactor m status
  status-IsFactor missing status h = absurd (ground (arith, h))
  status-IsFactor unfit status h = absurd (ground (arith, h))
  status-IsFactor (held f) status h = elim (Bool-cases (Totp.validated X.base32 f)) [
    | inl v ↦ record {
      factor = f;
      is_held = refl;
      valid = v;
      status_fits = subst (λ b. (if b then status_of f.status else none) ≡ some status) v h;
    }
    | inr v ↦
        absurd
          (ground (arith, subst (λ b. (if b then status_of f.status else none) ≡ some status) v h))
  ]

  pub IsFactor-status :
      (f : Factor) (status : Status)
      → Totp.validated X.base32 f ≡ true
      → status_of f.status ≡ some status
      → totp_status X (held f) ≡ some status
  IsFactor-status f status v e = rw (v, e) refl

abbrev pub status_in : AuthState → Status
status_in configured = active
status_in _ = pending

factor_of-some :
    (o : Option Status) (m : Member (Option CodeSet)) (s : AuthState)
    → factor_of o m ≡ ok s
    → o ≡ some (status_in s)
factor_of-some none m s h = absurd (ground (arith, h))
factor_of-some (some pending) missing s h = absurd (ground (arith, h))
factor_of-some (some pending) unfit s h = absurd (ground (arith, h))
factor_of-some (some pending) (held none) s h = ground (arith, h)
factor_of-some (some pending) (held (some c)) s h = ground (arith, h)
factor_of-some (some active) missing s h = absurd (ground (arith, h))
factor_of-some (some active) unfit s h = absurd (ground (arith, h))
factor_of-some (some active) (held none) s h = absurd (ground (arith, h))
factor_of-some (some active) (held (some c)) s h = ground (arith, h)

module _ (X : Libraries) where
  pub ready-IsFactor : (d : Data) (s : AuthState) → IsReady X d s → IsFactor X d.totp (status_in s)
  ready-IsFactor d s h =
      status-IsFactor X d.totp (status_in s)
        (factor_of-some (totp_status X d.totp) d.recovery_codes s h.factor)

  -- A factor of the same status takes the place of the stored one.
  pub same_status-IsReady :
      (d : Data) (s : AuthState) (f : Factor)
      → IsReady X d s
      → totp_status X (held f) ≡ some (status_in s)
      → IsReady X (record d { totp = held f }) s
  same_status-IsReady d s f h e =
      let b = h.base in
      let g = factor_of-some (totp_status X d.totp) d.recovery_codes s h.factor in
      record {
        base = record {
          password = b.password;
          version = b.version;
          positive = b.positive;
          user = b.user;
          secret = b.secret;
          keys = b.keys;
          counters = b.counters;
        };
        factor = subst (λ o. factor_of o d.recovery_codes ≡ ok s) (g ∙ sym e) h.factor;
      }

  pub counters-IsReady :
      (d : Data) (s : AuthState) (m : Member Failures)
      → IsReady X d s
      → counters_fit m ≡ true
      → IsReady X (record d { second_factor_failures = m }) s
  counters-IsReady d s m h e =
      let b = h.base in
      record {
        base = record {
          password = b.password;
          version = b.version;
          positive = b.positive;
          user = b.user;
          secret = b.secret;
          keys = b.keys;
          counters = e;
        };
        factor = h.factor;
      }

  -- New codes, a new generation and a new secret.
  pub rotated-IsBase :
      (d : Data) (m : Member (Option CodeSet)) (f : Member Factor) (next : ℤ) (secret : Text)
      → IsBase X d
      → is_positive (some (int next)) ≡ true
      → hex64 (text secret) ≡ true
      → IsBase X (rotated next secret (record d { recovery_codes = m; totp = f }))
  rotated-IsBase d m f next secret b p e = record {
    password = b.password;
    version = b.version;
    positive = p;
    user = b.user;
    secret = e;
    keys = b.keys;
    counters = b.counters;
  }

-- A generation has room for another one.
abbrev pub HasRoom : Data → Type 0
HasRoom d = ltb_ℤ (generation d) (pos (2 ^ 63 - 1)) ≡ true

positive_value :
    (o : Option Value) → is_positive o ≡ true → (n : ℕ) × (o ≡ some (int (pos (n + 1))))
positive_value none h = absurd (ground (arith, h))
positive_value (some (int (pos zero))) h = absurd (ground (arith, h))
positive_value (some (int (pos (suc n)))) h = (n, ground arith)
positive_value (some (int (negsuc n))) h = absurd (ground (arith, h))
positive_value (some _) h = absurd (ground (arith, h))

pub next-positive :
    (d : Data)
    → is_positive d.factor_generation ≡ true
    → HasRoom d
    → (n : ℕ) × (generation d ≡ pos (n + 1)) × (next_generation d ≡ pos (n + 2))
next-positive d h r =
    let (n, e) = positive_value d.factor_generation h in
    let g : generation d ≡ pos (n + 1) = ground (arith, e) in
    let l : n + 2 < 2 ^ 63 = ground (arith, g, r) in
    (n, g, rw (g, add-pos) (ground (arith, wrap_small (n + 2) l)))
