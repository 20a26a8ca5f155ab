-- ===== src/Record/Phases/Commits.antt =====
-- Registering a passkey and committing an assertion keep the record configured.
use shimpz_admin.Prelude.{
  ℕ, ◌+◌, ◌<◌, ◌≡◌, refl, subst, ap, ◌∙◌, inl, inr, Bool, true, false, ◌||◌, List, [], ◌∷◌, Option,
  none, some, Text, get_elem?, keep, length, leb, Bool-cases, then_of, else_of, arith,
}
use shimpz_admin.Prelude.Int.{ℤ, pos, ◌+ℤ◌, ltb_ℤ, wrap}
use shimpz_admin.Signin.Totp.{Value, int, text}
use shimpz_admin.Signin.Recovery.{hex64}
use shimpz_admin.Signin.Passkeys.{max_passkeys}
use shimpz_admin.Record.{
  StateError, ok, err, ◌>>=◌, Member, missing, unfit, held, Passkey, Data, Libraries,
}
use shimpz_admin.Record.State.{
  AuthState, uninitialized, configured, is_positive, authentication_state, validated_passkey,
  validated_passkeys,
}
use shimpz_admin.Record.Factors.{is_state, generation, rotated}
use shimpz_admin.Record.Credentials.{
  Authentication, PasskeyCommit, is_active, any_names, put_at, list_of, checked, matches_from,
  equal_value, equal_passkey, applied_assertion, committed, commit_at, commit_matching, is_open,
  passkeys_of, commit_in, commit_assertion, added, add_in, add_record,
}
use shimpz_admin.Record.Phases.{IsReady, state_cases, HasRoom, next-positive}
use shimpz_admin.Record.Phases.Attempts.{Moved, stay, data_of, signed_in-IsReady}
use shimpz_admin.Record.Phases.Codes.{same_int}
use shimpz_admin.Record.Phases.Keys
use shimpz_admin.Record.Phases.Registered.{
  both_true, added_valid, put_valid, item_valid, applied_valid,
}

-- What a change of the passkeys needs of the record and of what is drawn.
pub record Fits (secret : Text) (d : Data) : Type 0 where
  pub room : HasRoom d
  pub hex_secret : hex64 (text secret) ≡ true

pub refused_error {ℓ} : {A : Type ℓ} {e : StateError} {a : A} → err e ≡ ok a → ⊥
refused_error h = cc

neither : (a b : Bool) → a || b ≡ false → (a ≡ false) × (b ≡ false)
neither true b h = cc
neither false b h = (refl, h)

with_room : (n : ℕ) → leb max_passkeys n ≡ false → n < max_passkeys
with_room n h = ground (arith, h)

same_value : (v w : Value) → equal_value v w ≡ true → v ≡ w
same_value v w h = ground (arith, h)

unset_closed : is_state uninitialized configured ≡ true → ⊥
unset_closed h = ground (arith, h)

module _ (X : Libraries) where
  keys_held :
      (m : Member (List (Option Passkey)))
      → validated_passkeys X.is_ipv4 m ≡ none
      → (ks : List (Option Passkey)) × (m ≡ held ks)
  unfolding validated_passkeys
  keys_held missing h = absurd (ground (arith, h))
  keys_held unfit h = absurd (ground (arith, h))
  keys_held (held ks) h = (ks, refl)

  keyed-IsReady :
      (d : Data) (s : AuthState) (ks : List (Option Passkey))
      → IsReady X d s
      → validated_passkeys X.is_ipv4 (held ks) ≡ none
      → IsReady X (record d { passkeys = held ks }) s
  keyed-IsReady d s ks h v =
      let b = h.base in
      record {
        base = record {
          password = b.password;
          version = b.version;
          positive = b.positive;
          user = b.user;
          secret = b.secret;
          keys = v;
          counters = b.counters;
        };
        factor = h.factor;
      }

  -- A change of the factors that leaves the state.
  pub rotated-IsReady :
      (d : Data) (s : AuthState) (next : ℤ) (secret : Text)
      → IsReady X d s
      → is_positive (some (int next)) ≡ true
      → hex64 (text secret) ≡ true
      → IsReady X (rotated next secret d) s
  rotated-IsReady d s next secret h p x =
      let b = h.base in
      record {
        base = record {
          password = b.password;
          version = b.version;
          positive = p;
          user = b.user;
          secret = x;
          keys = b.keys;
          counters = b.counters;
        };
        factor = h.factor;
      }

  rekeyed-IsReady :
      (d : Data) (s : AuthState) (ks : List (Option Passkey)) (expected : ℤ) (secret : Text)
      → IsReady X d s
      → Fits secret d
      → expected ≡ generation d
      → validated_passkeys X.is_ipv4 (held ks) ≡ none
      → IsReady X (rotated (wrap (expected +ℤ pos 1)) secret (record d { passkeys = held ks })) s
  rekeyed-IsReady d s ks expected secret h k e v =
      let (n, g, p) = next-positive d h.base.positive k.room in
      let q : wrap (expected +ℤ pos 1) ≡ pos (n + 2) = ap (λ x. wrap (x +ℤ pos 1)) e ∙ p in
      rotated-IsReady (record d { passkeys = held ks }) s _ secret (keyed-IsReady d s ks h v)
        (rw q (ground arith)) k.hex_secret

  open_set :
      (d : Data) (s : AuthState) (expected : ℤ)
      → authentication_state X d ≡ ok s
      → is_open X s expected d ≡ true
      → IsReady X d s
  open_set d s expected e b = elim (state_cases X d s e) [
    | inl (_, u) ↦
        absurd (unset_closed (subst (λ x. is_state x configured ≡ true) u (ground (arith, b))))
    | inr i ↦ i
  ]

  applied_credential :
      (k : Passkey) (a : Authentication) (now : ℤ)
      → (applied_assertion k a now).0.credential_id ≡ k.credential_id
  unfolding applied_assertion
  applied_credential k a now = ground arith

  added-Moved :
      (k : Passkey) (expected : ℤ) (secret : Text) (d d' : Data) (s : AuthState)
      (ks : List (Option Passkey)) (r : Text)
      → IsReady X d s
      → Fits secret d
      → expected ≡ generation d
      → d.passkeys ≡ held ks
      → validated_passkey X.is_ipv4 (some k) ≡ none
      → added k expected secret d (keep is_active ks) ≡ ok (d', r)
      → Moved X s d'
  added-Moved k expected secret d d' s ks r i f e q v h =
      let full = leb max_passkeys (length (keep is_active ks)) in
      let taken = any_names k.credential_id (keep is_active ks) in
      elim (Bool-cases (full || taken)) [
        | inl b ↦ absurd (refused_error (then_of (full || taken) _ _ b h))
        | inr b ↦
            let w = subst (λ m. validated_passkeys X.is_ipv4 m ≡ none) q i.base.keys in
            let (b', c) = neither full taken b in
            let l = added_valid X.is_ipv4 k ks w v (with_room _ b') c in
            subst (Moved X s) (ap (data_of d) (else_of (full || taken) _ _ b h))
              (stay X s _ (rekeyed-IsReady d s _ expected secret i f e l))
      ]

  in-Moved :
      (k : Passkey) (expected : ℤ) (secret : Text) (d d' : Data) (s : AuthState) (r : Text)
      → authentication_state X d ≡ ok s
      → Fits secret d
      → validated_passkey X.is_ipv4 (some k) ≡ none
      → add_in X k expected secret d s ≡ ok (d', r)
      → Moved X s d'
  in-Moved k expected secret d d' s r e f v h = elim (Bool-cases (is_open X s expected d)) [
    | inr b ↦ absurd (refused_error (else_of (is_open X s expected d) _ _ b h))
    | inl b ↦
        let i = open_set d s expected e b in
        let (ks, q) = keys_held d.passkeys i.base.keys in
        let read : passkeys_of X d ≡ ok ks =
          ap (checked d.passkeys) i.base.keys ∙ ap (λ m. ok (list_of m)) q in
        added-Moved k expected secret d d' s ks r i f
          (same_int expected (generation d) (ground (arith, b))) q v
          (subst (λ x. (x >>= λ ks. added k expected secret d (keep is_active ks)) ≡ ok (d', r))
            read (then_of (is_open X s expected d) _ _ b h))
  ]

  -- A registration.
  pub add-Moved :
      (k : Passkey) (expected : ℤ) (secret : Text) (d d' : Data) (s : AuthState) (r : Text)
      → authentication_state X d ≡ ok s
      → Fits secret d
      → validated_passkey X.is_ipv4 (some k) ≡ none
      → add_record X k expected secret d ≡ ok (d', r)
      → Moved X s d'
  unfolding add_record
  add-Moved k expected secret d d' s r e f v h =
      in-Moved k expected secret d d' s r e f v
        (subst (λ x. (x >>= add_in X k expected secret d) ≡ ok (d', r)) e h)

  committed-Moved :
      (expected : ℤ) (sign_in : Bool) (secret : Text) (d : Data) (s : AuthState)
      (ks : List (Option Passkey)) (reason : Option Text)
      → IsReady X d s
      → Fits secret d
      → expected ≡ generation d
      → validated_passkeys X.is_ipv4 (held ks) ≡ none
      → Moved X s (committed expected sign_in secret d ks reason).0
  committed-Moved expected sign_in secret d s ks (some reason) i f e v =
      stay X s _ (rekeyed-IsReady d s ks expected secret i f e v)
  committed-Moved expected true secret d s ks none i f e v =
      stay X s _ (signed_in-IsReady X _ s (keyed-IsReady d s ks i v))
  committed-Moved expected false secret d s ks none i f e v = stay X s _ (keyed-IsReady d s ks i v)

  -- An assertion made no earlier than its passkey was created, with a counter that is not negative.
  pub record IsTimely (original : Passkey) (a : Authentication) (now : ℤ) : Type 0 where
    pub created : ℤ
    pub at : original.created_at ≡ int created
    pub later : ltb_ℤ now created ≡ false
    pub counts : ltb_ℤ a.new_sign_count (pos 0) ≡ false

  same_created :
      (k original : Passkey)
      → equal_passkey (some k) original ≡ true
      → k.created_at ≡ original.created_at
  same_created k original h =
      let (h, used) = both_true _ _ h in
      let (h, updated) = both_true _ _ h in
      let (h, created) = both_true _ _ h in same_value k.created_at original.created_at created

  at-Moved :
      (original : Passkey) (a : Authentication) (expected : ℤ) (sign_in : Bool) (secret : Text)
      (now : ℤ) (d d' : Data) (s : AuthState) (ks : List (Option Passkey)) (j : ℕ)
      (o : Option (Option Passkey)) (r : PasskeyCommit)
      → IsReady X d s
      → Fits secret d
      → IsTimely original a now
      → expected ≡ generation d
      → d.passkeys ≡ held ks
      → get_elem? ks j ≡ o
      → commit_at original a expected sign_in secret now d ks j o ≡ ok (d', r)
      → Moved X s d'
  at-Moved original a expected sign_in secret now d d' s ks j none r i f t e q g h =
      absurd (refused_error h)
  at-Moved original a expected sign_in secret now d d' s ks j (some none) r i f t e q g h =
      absurd (refused_error h)
  at-Moved original a expected sign_in secret now d d' s ks j (some (some k)) r i f t e q g h =
      elim (Bool-cases (equal_passkey (some k) original)) [
        | inr b ↦ absurd (refused_error (else_of (equal_passkey (some k) original) _ _ b h))
        | inl b ↦
            let w = subst (λ m. validated_passkeys X.is_ipv4 m ≡ none) q i.base.keys in
            let l = Keys.validated-IsList X.is_ipv4 ks w in
            let v = item_valid X.is_ipv4 j (some k) ks l.items g in
            let v' =
              applied_valid X.is_ipv4 k a now t.created v t.counts
                (same_created k original b ∙ t.at) t.later in
            let p =
              put_valid X.is_ipv4 j k (applied_assertion k a now).0 ks w g
                (applied_credential k a now) v' in
            subst (Moved X s) (ap (data_of d) (then_of (equal_passkey (some k) original) _ _ b h)) (
              committed-Moved expected sign_in secret d s
                (put_at j (applied_assertion k a now).0 ks) (applied_assertion k a now).1 i f e p)
      ]

  matching-Moved :
      (original : Passkey) (a : Authentication) (expected : ℤ) (sign_in : Bool) (secret : Text)
      (now : ℤ) (d d' : Data) (s : AuthState) (ks : List (Option Passkey)) (js : List ℕ)
      (r : PasskeyCommit)
      → IsReady X d s
      → Fits secret d
      → IsTimely original a now
      → expected ≡ generation d
      → d.passkeys ≡ held ks
      → commit_matching original a expected sign_in secret now d ks js ≡ ok (d', r)
      → Moved X s d'
  matching-Moved original a expected sign_in secret now d d' s ks [] r i f t e q h =
      absurd (refused_error h)
  matching-Moved original a expected sign_in secret now d d' s ks (j ∷ []) r i f t e q h =
      at-Moved original a expected sign_in secret now d d' s ks j (get_elem? ks j) r i f t e q refl
        h
  matching-Moved original a expected sign_in secret now d d' s ks (j ∷ l ∷ js) r i f t e q h =
      absurd (refused_error h)

  commit_in-Moved :
      (original : Passkey) (a : Authentication) (expected : ℤ) (sign_in : Bool) (secret : Text)
      (now : ℤ) (d d' : Data) (s : AuthState) (r : PasskeyCommit)
      → authentication_state X d ≡ ok s
      → Fits secret d
      → IsTimely original a now
      → commit_in X original a expected sign_in secret now d s ≡ ok (d', r)
      → Moved X s d'
  commit_in-Moved original a expected sign_in secret now d d' s r e f t h =
      elim (Bool-cases (is_open X s expected d)) [
        | inr b ↦ absurd (refused_error (else_of (is_open X s expected d) _ _ b h))
        | inl b ↦
            let i = open_set d s expected e b in
            let (ks, q) = keys_held d.passkeys i.base.keys in
            let read : passkeys_of X d ≡ ok ks =
              ap (checked d.passkeys) i.base.keys ∙ ap (λ m. ok (list_of m)) q in
            let go = λ (ks : List (Option Passkey)).
              commit_matching original a expected sign_in secret now d ks
                (matches_from a.credential_id 0 ks) in
            matching-Moved original a expected sign_in secret now d d' s ks _ r i f t
              (same_int expected (generation d) (both_true _ _ b).1) q
              (subst (λ x. (x >>= go) ≡ ok (d', r)) read (then_of (is_open X s expected d) _ _ b h))
      ]

  -- An assertion.
  pub commit-Moved :
      (original : Passkey) (a : Authentication) (expected : ℤ) (sign_in : Bool) (secret : Text)
      (now : ℤ) (d d' : Data) (s : AuthState) (r : PasskeyCommit)
      → authentication_state X d ≡ ok s
      → Fits secret d
      → IsTimely original a now
      → commit_assertion X original a expected sign_in secret now d ≡ ok (d', r)
      → Moved X s d'
  unfolding commit_assertion
  commit-Moved original a expected sign_in secret now d d' s r e f t h =
      commit_in-Moved original a expected sign_in secret now d d' s r e f t
        (subst (λ x. (x >>= commit_in X original a expected sign_in secret now d) ≡ ok (d', r)) e h)
