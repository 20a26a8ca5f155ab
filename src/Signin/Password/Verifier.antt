-- ===== src/Signin/Password/Verifier.antt =====
-- A verifier that is written is read as the salt and the digest it was made of.
use shimpz_admin.Prelude.{
  ℕ, ◌≡◌, ◌≤◌, refl, sym, subst, ap, inl, inr, Option-cases, Bool, true, [], ◌∷◌, ◌++◌, Option,
  none, some, Text, all, length, arith, ◌&&◌, leb, ◌||◌, ltb,
}
use shimpz_admin.Protocol.Origin.{split_once, strip_prefix, same}
use shimpz_admin.Signin.Totp.{text}
use shimpz_admin.Signin.Recovery.{hex64}
use shimpz_admin.Signin.Password.{
  PolicyViolation, verifier_prefix, hex_text, max_password_chars, password_material,
  password_policy, new_password_verifier, verify_password,
}

strip_prefix-append : (p t : Text) → strip_prefix p (p ++ t) ≡ some t
unfolding strip_prefix
strip_prefix-append [] t = refl
strip_prefix-append (c ∷ p) t = ground (arith, strip_prefix-append p t)

-- No dollar stands before the first one.
split_once-append :
    (a b : Text)
    → all (λ c. leb 48 c && leb c 57 || leb 97 c && leb c 102) a ≡ true
    → split_once 36 (a ++ 36 ∷ b) ≡ some (a, b)
unfolding split_once
split_once-append [] b h = refl
split_once-append (c ∷ a) b h = ground (arith, split_once-append a b, h)

-- 32 bytes.
abbrev pub Is32Bytes : Text → Type 0
Is32Bytes t = (length t ≡ 32) × (all (λ c. ltb c 256) t ≡ true)

-- What the proof uses of the hexadecimal encoding of 32 bytes.
pub record IsHex (encode : Text → Text) (decode : Text → Option Text) : Type 0 where
  pub digits : (t : Text) → Is32Bytes t → hex64 (text (encode t)) ≡ true
  pub reads : (t : Text) → Is32Bytes t → decode (encode t) ≡ some t

module _ (encode : Text → Text) (decode : Text → Option Text) (hex : IsHex encode decode) where
  hex_text-encode : (t : Text) → Is32Bytes t → hex_text decode (encode t) ≡ some t
  hex_text-encode t l = rw (hex.digits t l) (hex.reads t l)

  material_read :
      (salt digest : Text)
      → Is32Bytes salt
      → Is32Bytes digest
      → password_material decode
          (some (text (verifier_prefix ++ encode salt ++ 36 ∷ encode digest)))
        ≡ some (some (salt, digest))
  unfolding password_material
  material_read salt digest l m =
      rw
        (
          strip_prefix-append verifier_prefix (encode salt ++ 36 ∷ encode digest),
          split_once-append (encode salt) (encode digest) (ground (arith, hex.digits salt l)),
          hex_text-encode salt l,
          hex_text-encode digest m,
        )
        refl

module _ (isspace : ℕ → Bool) (nfkc casefold : Text → Text) (is_listed : Text → Bool)
    (scrypt : Text → Text → Text) (encode : Text → Text) (decode : Text → Option Text) where
  verifier_text :
      (salt password v : Text)
      → new_password_verifier isspace nfkc casefold is_listed scrypt encode salt password
        ≡ (none, v)
      → v ≡ verifier_prefix ++ encode salt ++ 36 ∷ encode (scrypt password salt)
  unfolding new_password_verifier
  verifier_text salt password v h =
      elim (Option-cases (password_policy isspace nfkc casefold is_listed password)) [
        | inl e ↦ sym (ap (λ p. p.1) (subst (λ o. made o ≡ (none, v)) e h))
        | inr (x, e) ↦ absurd (ground (arith, subst (λ o. made o ≡ (none, v)) e h))
      ]
    where
      made : Option PolicyViolation → Option PolicyViolation × Text
      made o = elim o [
        | some violation ↦ (some violation, [])
        | none ↦ (none, verifier_prefix ++ encode salt ++ 36 ∷ encode (scrypt password salt))
      ]

  -- Against the verifier that was made for a new password, a password of 1 to 4,096 characters is
  -- checked without an error, and is right exactly when scrypt derives the same digest from it under
  -- the verifier's salt; so the new password itself is. The salt and the digests have 32 bytes.
  pub verify_password-new_password_verifier :
      IsHex encode decode
      → ((t s : Text) → Is32Bytes (scrypt t s))
      → (salt password other v : Text) → Is32Bytes salt
      → new_password_verifier isspace nfkc casefold is_listed scrypt encode salt password
        ≡ (none, v)
      → 1 ≤ length other
      → length other ≤ max_password_chars
      → verify_password scrypt decode other (some (text v))
        ≡ (same (scrypt other salt) (scrypt password salt), none)
  unfolding verify_password
  verify_password-new_password_verifier hex sized salt password other v l h a b =
      rw
        (
          verifier_text salt password v h,
          material_read encode decode hex salt (scrypt password salt) l (sized password salt),
        )
        (ground (arith, a, b))
