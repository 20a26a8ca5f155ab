-- ===== src/Record/Phases/Registered.antt =====
-- Registering a passkey, and committing an assertion, keep the list of passkeys valid.
use shimpz_admin.Prelude.{
  ℕ, zero, suc, ◌<◌, ◌≡◌, refl, sym, subst, ◌⊎◌, inl, inr, Bool, true, false, not, ◌&&◌, ◌||◌, List,
  [], ◌∷◌, ◌++◌, Option, none, some, Text, Text-discrete, ℕ_discrete, map, length, get_elem?, keep,
  length-append, Bool-cases, arith,
}
use shimpz_admin.Prelude.Int.{ℤ, pos, ltb_ℤ}
use shimpz_admin.Signin.Totp.{Value, int, text}
use shimpz_admin.Signin.Recovery.{is_among}
use shimpz_admin.Signin.Passkeys.{max_passkeys}
use shimpz_admin.Record.{held, Passkey}
use shimpz_admin.Record.State.{
  times_fit, has_value, is_set, is_status, active_status, suspended_status, names_key,
  validated_passkey, validated_passkeys, items_error, credential_of, shape_fits, origin_fits,
  non_negative,
}
use shimpz_admin.Record.Credentials.{
  Authentication, is_active, any_names, put_at, applied_assertion, counter_regressed,
  identity_changed,
}
use shimpz_admin.Record.Phases.Keys.{
  distinct_keep, distinct_last, items-cons, items-keep, items-last, IsList, validated-IsList,
  IsList-validated,
}

named_text : (v : Value) → names_key v ≡ true → (t : Text) × (v ≡ text t)
named_text (text t) h = (t, refl)
named_text _ h = absurd (ground (arith, h))

-- The parts of a valid passkey's shape.
record Shape (k : Passkey) : Type 0 where
  times :
      times_fit
        (non_negative k.created_at)
        (non_negative k.updated_at)
        (non_negative k.last_used_at)
      ≡ true
  id : names_key k.credential_id ≡ true
  public : names_key k.public_key ≡ true
  count : has_value (non_negative k.sign_count) ≡ true
  eligible : has_value k.backup_eligible ≡ true
  backed : has_value k.backup_state ≡ true
  backup : not (is_set k.backup_state) || is_set k.backup_eligible ≡ true
  status : is_status active_status k.status || is_status suspended_status k.status ≡ true

pub both_true : (a b : Bool) → a && b ≡ true → (a ≡ true) × (b ≡ true)
both_true true b h = (refl, h)
both_true false b h = cc

taken_apart : (is_ipv4 : Text → Bool) (k : Passkey) → shape_fits is_ipv4 k ≡ true → Shape k
taken_apart is_ipv4 k h =
    let (h, status) = both_true _ _ h in
    let (h, backup) = both_true _ _ h in
    let (h, backed) = both_true _ _ h in
    let (h, eligible) = both_true _ _ h in
    let (h, count) = both_true _ _ h in
    let (h, public) = both_true _ _ h in
    let (times, id) = both_true _ _ h in
    record {
      times = times;
      id = id;
      public = public;
      count = count;
      eligible = eligible;
      backed = backed;
      backup = backup;
      status = status;
    }

put_together :
    (is_ipv4 : Text → Bool) (k : Passkey)
    → times_fit
        (non_negative k.created_at)
        (non_negative k.updated_at)
        (non_negative k.last_used_at)
      ≡ true
    → names_key k.credential_id ≡ true
    → names_key k.public_key ≡ true
    → has_value (non_negative k.sign_count) ≡ true
    → has_value k.backup_eligible ≡ true
    → has_value k.backup_state ≡ true
    → not (is_set k.backup_state) || is_set k.backup_eligible ≡ true
    → is_status active_status k.status || is_status suspended_status k.status ≡ true
    → shape_fits is_ipv4 k ≡ true
put_together is_ipv4 k a b c d e f g h = rw (a, b, c, d, e, f, g, h) refl

-- A time that is not negative, if it is one.
abbrev AtMoment : ℤ → Option ℤ → Type 0
AtMoment c o = (o ≡ none) ⊎ ((o ≡ some c) × (ltb_ℤ c (pos 0) ≡ false))

time_after : (now c : ℤ) → ltb_ℤ c (pos 0) ≡ false → ltb_ℤ now c ≡ false → ltb_ℤ now (pos 0) ≡ false
time_after now c h l = ground arith

later_times :
    (now c : ℤ) (created updated used : Option ℤ)
    → times_fit created updated used ≡ true
    → AtMoment c created
    → ltb_ℤ now c ≡ false
    → times_fit created (non_negative (int now)) (non_negative (int now)) ≡ true
later_times now c created updated used h (inl e) l = absurd (ground (arith, h, e))
later_times now c created updated used h (inr (e, z)) l = rw (e, time_after now c z l, l) refl

int_read : (c : ℤ) → AtMoment c (non_negative (int c))
int_read c = elim (Bool-cases (ltb_ℤ c (pos 0))) [
  | inl e ↦ rw e (inl refl)
  | inr e ↦ rw e (inr (refl, refl))
]

created_value : (c : ℤ) (v : Value) → v ≡ int c → AtMoment c (non_negative v)
created_value c v e = subst (λ x. AtMoment c (non_negative x)) (sym e) (int_read c)

abbrev suspended_at : ℤ → Passkey → Passkey
suspended_at now k = record k {
  last_used_at = int now;
  updated_at = int now;
  status = text suspended_status;
}

abbrev counted_at : ℤ → Authentication → Passkey → Passkey
counted_at now a k = record k {
  last_used_at = int now;
  updated_at = int now;
  sign_count = int a.new_sign_count;
  backup_state = some a.backup_state;
}

suspended_status_fits :
    is_status active_status (text suspended_status)
      || is_status suspended_status (text suspended_status)
    ≡ true
unfolding Text-discrete ℕ_discrete
suspended_status_fits = refl

count_value : (n : ℤ) → ltb_ℤ n (pos 0) ≡ false → has_value (non_negative (int n)) ≡ true
count_value n h = rw h refl

same_identity :
    (k : Passkey) (a : Authentication)
    → identity_changed k a ≡ false
    → not (is_set (some a.backup_state)) || is_set k.backup_eligible ≡ true
same_identity k a h = ground (arith, h)

module _ (is_ipv4 : Text → Bool) where
  valid_shape :
      (p : Passkey)
      → validated_passkey is_ipv4 (some p) ≡ none
      → (shape_fits is_ipv4 p ≡ true) × (origin_fits is_ipv4 p.origin p.rp_id ≡ true)
  unfolding validated_passkey
  valid_shape p h = elim (Bool-cases (shape_fits is_ipv4 p)) [
    | inr e ↦ absurd (ground (arith, h, e))
    | inl e ↦ elim (Bool-cases (origin_fits is_ipv4 p.origin p.rp_id)) [
      | inl o ↦ (e, o)
      | inr o ↦ absurd (ground (arith, h, e, o))
    ]
  ]

  valid_passkey :
      (p : Passkey)
      → shape_fits is_ipv4 p ≡ true
      → origin_fits is_ipv4 p.origin p.rp_id ≡ true
      → validated_passkey is_ipv4 (some p) ≡ none
  unfolding validated_passkey
  valid_passkey p e o = rw (e, o) refl

  credential_text :
      (p : Passkey)
      → validated_passkey is_ipv4 (some p) ≡ none
      → (t : Text) × (p.credential_id ≡ text t)
  credential_text p h =
      let (e, o) = valid_shape p h in named_text p.credential_id (ground (arith, e))

  none_invalid : validated_passkey is_ipv4 none ≡ none → ⊥
  unfolding validated_passkey
  none_invalid e = cc

  -- A credential that no passkey of a list names is none of the list's.
  among_credential :
      (t : Text) (ks : List (Option Passkey))
      → items_error is_ipv4 ks ≡ none
      → any_names (text t) ks ≡ false
      → is_among t (map credential_of ks) ≡ false
  among_credential t [] h n = refl
  among_credential t (none ∷ ks) h n =
      let (e, r) = items-cons is_ipv4 none ks h in absurd (none_invalid e)
  among_credential t (some p ∷ ks) h n =
      let (e, r) = items-cons is_ipv4 (some p) ks h in
      let (u, q) = credential_text p e in
      let rest : any_names (text t) ks ≡ false = ground (arith, n) in
      ground (arith, n, q, among_credential t ks r rest)

  added-IsList :
      (k : Passkey) (ks : List (Option Passkey))
      → IsList is_ipv4 ks
      → validated_passkey is_ipv4 (some k) ≡ none
      → length (keep is_active ks) < max_passkeys
      → any_names k.credential_id (keep is_active ks) ≡ false
      → IsList is_ipv4 (keep is_active ks ++ some k ∷ [])
  added-IsList k ks h v l n =
      let active = keep is_active ks in
      let (t, e) = credential_text k v in
      let items = items-keep is_ipv4 ks h.items in
      let absent = among_credential t active items (subst (λ x. any_names x active ≡ false) e n) in
      let same : t ≡ credential_of (some k) = ground (arith, e) in
      record {
        few = omega (arith, length-append active (some k ∷ []), l);
        items = items-last is_ipv4 (some k) active items v;
        apart =
            distinct_last (some k) active (distinct_keep ks h.apart)
              (subst (λ x. is_among x (map credential_of active) ≡ false) same absent);
      }

  -- The list after a registration is valid.
  pub added_valid :
      (k : Passkey) (ks : List (Option Passkey))
      → validated_passkeys is_ipv4 (held ks) ≡ none
      → validated_passkey is_ipv4 (some k) ≡ none
      → length (keep is_active ks) < max_passkeys
      → any_names k.credential_id (keep is_active ks) ≡ false
      → validated_passkeys is_ipv4 (held (keep is_active ks ++ some k ∷ [])) ≡ none
  added_valid k ks h v l n =
      IsList-validated is_ipv4 _ (added-IsList k ks (validated-IsList is_ipv4 ks h) v l n)

  -- A passkey in the place of one of the same credential.
  put_credentials :
      (i : ℕ) (k k' : Passkey) (ks : List (Option Passkey))
      → get_elem? ks i ≡ some (some k)
      → k'.credential_id ≡ k.credential_id
      → map credential_of (put_at i k' ks) ≡ map credential_of ks
  put_credentials i k k' [] h e = refl
  put_credentials zero k k' (x ∷ ks) h e = ground (arith, h, e)
  put_credentials (suc i) k k' (x ∷ ks) h e = rw (put_credentials i k k' ks h e) refl

  length-put_at :
      (i : ℕ) (k : Passkey) (ks : List (Option Passkey)) → length (put_at i k ks) ≡ length ks
  length-put_at i k [] = refl
  length-put_at zero k (x ∷ ks) = refl
  length-put_at (suc i) k (x ∷ ks) = omega (arith, length-put_at i k ks)

  put_items :
      (i : ℕ) (k : Passkey) (ks : List (Option Passkey))
      → items_error is_ipv4 ks ≡ none
      → validated_passkey is_ipv4 (some k) ≡ none
      → items_error is_ipv4 (put_at i k ks) ≡ none
  put_items i k [] h v = h
  put_items zero k (x ∷ ks) h v = ground (arith, v, items-cons is_ipv4 x ks h)
  put_items (suc i) k (x ∷ ks) h v = ground (arith, items-cons is_ipv4 x ks h, put_items i k ks)

  pub item_valid :
      (i : ℕ) (k : Option Passkey) (ks : List (Option Passkey))
      → items_error is_ipv4 ks ≡ none
      → get_elem? ks i ≡ some k
      → validated_passkey is_ipv4 k ≡ none
  item_valid i k [] h g = cc
  item_valid zero k (x ∷ ks) h g = ground (arith, items-cons is_ipv4 x ks h, g)
  item_valid (suc i) k (x ∷ ks) h g = item_valid i k ks (items-cons is_ipv4 x ks h).1 g

  pub put_valid :
      (i : ℕ) (k k' : Passkey) (ks : List (Option Passkey))
      → validated_passkeys is_ipv4 (held ks) ≡ none
      → get_elem? ks i ≡ some (some k)
      → k'.credential_id ≡ k.credential_id
      → validated_passkey is_ipv4 (some k') ≡ none
      → validated_passkeys is_ipv4 (held (put_at i k' ks)) ≡ none
  put_valid i k k' ks h g e v =
      let l = validated-IsList is_ipv4 ks h in
      IsList-validated is_ipv4 _ (record {
        few = rw (length-put_at i k' ks) l.few;
        items = put_items i k' ks l.items v;
        apart = rw (put_credentials i k k' ks g e) l.apart;
      })

  pub applied_valid :
      (k : Passkey) (a : Authentication) (now c : ℤ)
      → validated_passkey is_ipv4 (some k) ≡ none
      → ltb_ℤ a.new_sign_count (pos 0) ≡ false
      → k.created_at ≡ int c
      → ltb_ℤ now c ≡ false
      → validated_passkey is_ipv4 (some (applied_assertion k a now).0) ≡ none
  unfolding applied_assertion
  applied_valid k a now c v n e l =
      let (s, o) = valid_shape k v in
      let p = taken_apart is_ipv4 k s in
      let t =
        later_times now c (non_negative k.created_at) (non_negative k.updated_at)
          (non_negative k.last_used_at) p.times (created_value c k.created_at e) l in
      let q =
        valid_passkey (suspended_at now k)
          (put_together is_ipv4 (suspended_at now k) t p.id p.public p.count p.eligible p.backed
            p.backup suspended_status_fits)
          o in
      elim (Bool-cases (counter_regressed k a)) [
        | inl r ↦ rw r q
        | inr r ↦ elim (Bool-cases (identity_changed k a)) [
          | inl i ↦ rw (r, i) q
          | inr i ↦
              rw (r, i)
                (valid_passkey (counted_at now a k)
                  (put_together is_ipv4 (counted_at now a k) t p.id p.public
                    (count_value a.new_sign_count n) p.eligible refl (same_identity k a i) p.status)
                  o)
        ]
      ]
