-- ===== src/Record/Phases/Keys.antt =====
-- Lists of stored passkeys that stay valid.
use shimpz_admin.Prelude.{
  ◌≤◌, ◌≡◌, refl, inl, inr, Bool, true, false, not, ◌&&◌, List, [], ◌∷◌, ◌++◌, Option, none, Text,
  map, length, keep, Bool-cases, Option-cases, arith,
}
use shimpz_admin.Signin.Recovery.{distinct_count, is_among}
use shimpz_admin.Signin.Passkeys.{max_passkeys}
use shimpz_admin.Record.{held, Passkey}
use shimpz_admin.Record.State.{validated_passkey, validated_passkeys, items_error, credential_of}
use shimpz_admin.Record.Credentials.{is_active}

-- No text twice.
abbrev pub distinct : List Text → Bool
distinct [] = true
distinct (t ∷ ts) = not (is_among t ts) && distinct ts

distinct_count-le : (ts : List Text) → distinct_count ts ≤ length ts
distinct_count-le [] = omega arith
distinct_count-le (t ∷ ts) = ground (arith, distinct_count-le ts)

distinct_of : (ts : List Text) → distinct_count ts ≡ length ts → distinct ts ≡ true
distinct_of [] h = refl
distinct_of (t ∷ ts) h = elim (Bool-cases (is_among t ts)) [
  | inl e ↦ let l = distinct_count-le ts in absurd (ground (arith, h, e, l))
  | inr e ↦ let r = distinct_of ts (ground (arith, h, e)) in rw (e, r) refl
]

of_distinct : (ts : List Text) → distinct ts ≡ true → distinct_count ts ≡ length ts
of_distinct [] h = refl
of_distinct (t ∷ ts) h = ground (arith, h, of_distinct ts)

among_keep :
    (t : Text) (ks : List (Option Passkey))
    → is_among t (map credential_of ks) ≡ false
    → is_among t (map credential_of (keep is_active ks)) ≡ false
among_keep t [] h = refl
among_keep t (k ∷ ks) h = ground (arith, h, among_keep t ks)

pub distinct_keep :
    (ks : List (Option Passkey))
    → distinct (map credential_of ks) ≡ true
    → distinct (map credential_of (keep is_active ks)) ≡ true
distinct_keep [] h = refl
distinct_keep (k ∷ ks) h = ground (arith, h, distinct_keep ks, among_keep (credential_of k) ks)

among_last :
    (t u : Text) (k : Option Passkey) (ks : List (Option Passkey))
    → credential_of k ≡ u
    → is_among t (map credential_of ks) ≡ false
    → (t ≡ u → ⊥)
    → is_among t (map credential_of (ks ++ k ∷ [])) ≡ false
among_last t u k [] e h n = ground (arith, e, n)
among_last t u k (x ∷ ks) e h n = ground (arith, h, among_last t u k ks e, n)

pub distinct_last :
    (k : Option Passkey) (ks : List (Option Passkey))
    → distinct (map credential_of ks) ≡ true
    → is_among (credential_of k) (map credential_of ks) ≡ false
    → distinct (map credential_of (ks ++ k ∷ [])) ≡ true
distinct_last k [] h n = refl
distinct_last k (x ∷ ks) h n =
    ground
      (arith, h, n, distinct_last k ks, among_last (credential_of x) (credential_of k) k ks refl)

module _ (is_ipv4 : Text → Bool) where
  pub items-cons :
      (k : Option Passkey) (ks : List (Option Passkey))
      → items_error is_ipv4 (k ∷ ks) ≡ none
      → (validated_passkey is_ipv4 k ≡ none) × (items_error is_ipv4 ks ≡ none)
  items-cons k ks h = ground (arith, h)

  pub items-keep :
      (ks : List (Option Passkey))
      → items_error is_ipv4 ks ≡ none
      → items_error is_ipv4 (keep is_active ks) ≡ none
  items-keep [] h = refl
  items-keep (k ∷ ks) h = ground (arith, items-cons k ks h, items-keep ks)

  pub items-last :
      (k : Option Passkey) (ks : List (Option Passkey))
      → items_error is_ipv4 ks ≡ none
      → validated_passkey is_ipv4 k ≡ none
      → items_error is_ipv4 (ks ++ k ∷ []) ≡ none
  items-last k [] h v = rw v refl
  items-last k (x ∷ ks) h v = ground (arith, items-cons x ks h, items-last k ks)

  -- What the validation of a list checks.
  pub record IsList (ks : List (Option Passkey)) : Type 0 where
    pub few : length ks ≤ max_passkeys
    pub items : items_error is_ipv4 ks ≡ none
    pub apart : distinct (map credential_of ks) ≡ true

  length-map : (ks : List (Option Passkey)) → length (map credential_of ks) ≡ length ks
  length-map [] = refl
  length-map (k ∷ ks) = omega (arith, length-map ks)

  pub validated-IsList :
      (ks : List (Option Passkey)) → validated_passkeys is_ipv4 (held ks) ≡ none → IsList ks
  unfolding validated_passkeys
  validated-IsList ks h = elim (Option-cases (items_error is_ipv4 ks)) [
    | inr (e, q) ↦ absurd (ground (arith, h, q))
    | inl q ↦ record {
      few = ground (arith, h, q);
      items = q;
      apart = distinct_of (map credential_of ks) (ground (arith, h, q, length-map ks));
    }
  ]

  pub IsList-validated :
      (ks : List (Option Passkey)) → IsList ks → validated_passkeys is_ipv4 (held ks) ≡ none
  unfolding validated_passkeys
  IsList-validated ks h =
      let c = of_distinct (map credential_of ks) h.apart in
      rw h.items (ground (arith, h.few, c, length-map ks))
