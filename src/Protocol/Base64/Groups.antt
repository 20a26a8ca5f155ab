-- ===== src/Protocol/Base64/Groups.antt =====
-- One character of a text, and the alphabets.
use shimpz_admin.Prelude.{
  ℕ, zero, suc, ◌+◌, ◌-◌, ◌*◌, ◌/◌, ◌%◌, ◌^◌, ◌≤◌, ◌<◌, ◌≡◌, refl, true, false, not, ◌&&◌, Bool,
  Option, some, none, arith, Text, ◌∷◌, get_elem?, leb, ◌==◌, Bool-cases, inl, inr,
}
use shimpz_admin.Protocol.Base64.{
  standard, url_safe, padding, or_nul, place, push_before, before_padding, decode_from,
}

abbrev pub letter_of : Text → ℕ → ℕ
letter_of alphabet k = or_nul (get_elem? alphabet k)

-- Sixty-four characters, none of them twice and none of them `=`.
pub record IsAlphabet (alphabet : Text) : Type 0 where
  pub placed : (k : ℕ) → k < 64 → place alphabet (letter_of alphabet k) 0 ≡ some k
  pub unpadded : (k : ℕ) → k < 64 → (letter_of alphabet k == padding) ≡ false

abbrev all_below : ℕ → (ℕ → Bool) → Bool
all_below zero p = true
all_below (suc n) p = p n && all_below n p

all_below_lem : (n : ℕ) (p : ℕ → Bool) → all_below n p ≡ true → (k : ℕ) → k < n → p k ≡ true
all_below_lem zero p h k l = absurd (omega (arith, l))
all_below_lem (suc n) p h k l = elim (Bool-cases (k == n)) [
  | inl e ↦ let f : k ≡ n = ground (arith, e) in rw f (ground (arith, h))
  | inr e ↦ all_below_lem n p (ground (arith, h)) k (ground (arith, e, l))
]

abbrev is_place : ℕ → Option ℕ → Bool
is_place k none = false
is_place k (some i) = i == k

is_place_lem : (k : ℕ) (o : Option ℕ) → is_place k o ≡ true → o ≡ some k
is_place_lem k o h = ground (arith, h)

abbrev is_unpadded : ℕ → Bool
is_unpadded c = not (c == padding)

is_unpadded_lem : (c : ℕ) → is_unpadded c ≡ true → (c == padding) ≡ false
is_unpadded_lem c h = ground (arith, h)

alphabet_lem :
    (alphabet : Text)
    → all_below 64 (λ k. is_place k (place alphabet (letter_of alphabet k) 0)) ≡ true
    → all_below 64 (λ k. is_unpadded (letter_of alphabet k)) ≡ true
    → IsAlphabet alphabet
alphabet_lem alphabet h i = record {
  placed = λ k l.
      is_place_lem k _
        (all_below_lem 64 (λ k. is_place k (place alphabet (letter_of alphabet k) 0)) h k l);
  unpadded =
      λ k l. is_unpadded_lem _ (all_below_lem 64 (λ k. is_unpadded (letter_of alphabet k)) i k l);
}

pub standard-IsAlphabet : IsAlphabet standard
unfolding place standard
standard-IsAlphabet = alphabet_lem standard refl refl

pub url_safe-IsAlphabet : IsAlphabet url_safe
unfolding place url_safe
url_safe-IsAlphabet = alphabet_lem url_safe refl refl

module _ (alphabet : Text) (v : IsAlphabet alphabet) where
  pub before_padding-letter :
      (k : ℕ) (cs : Text)
      → k < 64
      → before_padding (letter_of alphabet k ∷ cs) ≡ letter_of alphabet k ∷ before_padding cs
  unfolding before_padding
  before_padding-letter k cs l = rw (v.unpadded k l) refl

  -- A character that completes no byte, and one that does.
  pub gather :
      (buffer bits k : ℕ) (cs : Text)
      → k < 64
      → bits < 2
      → decode_from alphabet buffer bits (letter_of alphabet k ∷ cs)
        ≡ decode_from alphabet (buffer * 64 % 2 ^ 32 + k) (bits + 6) cs
  unfolding decode_from
  gather buffer bits k cs l h =
      let e : leb 8 (bits + 6) ≡ false = ground (arith, h) in rw (decode_from, v.placed k l, e) refl

  pub complete :
      (buffer bits k : ℕ) (cs : Text)
      → k < 64
      → 2 ≤ bits
      → decode_from alphabet buffer bits (letter_of alphabet k ∷ cs)
        ≡ push_before
            ((buffer * 64 % 2 ^ 32 + k) / 2 ^ (bits + 6 - 8) % 256)
            (decode_from alphabet (buffer * 64 % 2 ^ 32 + k) (bits + 6 - 8) cs)
  unfolding decode_from
  complete buffer bits k cs l h =
      let e : leb 8 (bits + 6) ≡ true = ground (arith, h) in rw (decode_from, v.placed k l, e) refl
