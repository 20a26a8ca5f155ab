-- ===== src/Protocol/Base64/Decoded.antt =====
-- What is encoded is decoded.
use shimpz_admin.Prelude.{
  ℕ, ◌+◌, ◌*◌, ◌/◌, ◌%◌, ◌^◌, ◌<◌, ◌≡◌, refl, ap, ◌∙◌, true, Bool, some, arith, Text, [], ◌∷◌, all,
  ltb,
}
use shimpz_admin.Protocol.Base64.{
  push_before, before_padding, decode_from, encode, decode, group_from,
}
use shimpz_admin.Protocol.Base64.Groups.{
  letter_of, IsAlphabet, before_padding-letter, gather, complete,
}

abbrev pub is_byte : ℕ → Bool
is_byte c = ltb c 256

-- The bytes of a group of sextets, whatever the buffer held before.
first_byte :
    (g t a : ℕ)
    → a < 256
    → g / 65536 ≡ a
    → ((t * 64 % 2 ^ 32 + g / 2 ^ 18 % 64) * 64 % 2 ^ 32 + g / 2 ^ 12 % 64) / 2 ^ 4 % 256 ≡ a
first_byte g t a l h = ground (arith, l, h)

second_byte :
    (g t b : ℕ)
    → g / 256 % 256 ≡ b
    → ((t * 64 % 2 ^ 32 + g / 2 ^ 12 % 64) * 64 % 2 ^ 32 + g / 2 ^ 6 % 64) / 2 ^ 2 % 256 ≡ b
second_byte g t b h = ground (arith, h)

third_byte :
    (g t c : ℕ)
    → g % 256 ≡ c
    → ((t * 64 % 2 ^ 32 + g / 2 ^ 6 % 64) * 64 % 2 ^ 32 + g / 2 ^ 0 % 64) / 2 ^ 0 % 256 ≡ c
third_byte g t c h = ground (arith, h)

-- The sextet of a group, and the buffer once it is shifted in.
abbrev sextet : ℕ → ℕ → ℕ
sextet g shift = g / 2 ^ shift % 64

abbrev grown : ℕ → ℕ → ℕ
grown buffer k = buffer * 64 % 2 ^ 32 + k

sextet-small : (g shift : ℕ) → sextet g shift < 64
sextet-small g shift = ground arith

module _ (alphabet : Text) (v : IsAlphabet alphabet) where
  abbrev letter_at : ℕ → ℕ → ℕ
  letter_at g shift = letter_of alphabet (sextet g shift)

  -- Two letters make a byte, three make two bytes, four make three.
  two_letters :
      (g buffer a : ℕ) (cs : Text)
      → a < 256
      → g / 65536 ≡ a
      → decode_from alphabet buffer 0 (letter_at g 18 ∷ letter_at g 12 ∷ cs)
        ≡ push_before a
            (decode_from alphabet (grown (grown buffer (sextet g 18)) (sextet g 12)) 4 cs)
  two_letters g buffer a cs l h =
      let b1 = grown buffer (sextet g 18) in
      gather alphabet v buffer 0 (sextet g 18) _ (sextet-small g 18) (omega arith)
      ∙ complete alphabet v b1 6 (sextet g 12) cs (sextet-small g 12) (omega arith)
      ∙ ap (λ x. push_before x (decode_from alphabet (grown b1 (sextet g 12)) 4 cs))
          (first_byte g buffer a l h)

  third_letter :
      (g t b : ℕ) (cs : Text)
      → g / 256 % 256 ≡ b
      → decode_from alphabet (grown t (sextet g 12)) 4 (letter_at g 6 ∷ cs)
        ≡ push_before b (decode_from alphabet (grown (grown t (sextet g 12)) (sextet g 6)) 2 cs)
  third_letter g t b cs h =
      let b2 = grown t (sextet g 12) in
      complete alphabet v b2 4 (sextet g 6) cs (sextet-small g 6) (omega arith)
      ∙ ap (λ x. push_before x (decode_from alphabet (grown b2 (sextet g 6)) 2 cs))
          (second_byte g t b h)

  fourth_letter :
      (g t c : ℕ) (cs : Text)
      → g % 256 ≡ c
      → decode_from alphabet (grown t (sextet g 6)) 2 (letter_at g 0 ∷ cs)
        ≡ push_before c (decode_from alphabet (grown (grown t (sextet g 6)) (sextet g 0)) 0 cs)
  fourth_letter g t c cs h =
      let b3 = grown t (sextet g 6) in
      complete alphabet v b3 2 (sextet g 0) cs (sextet-small g 0) (omega arith)
      ∙ ap (λ x. push_before x (decode_from alphabet (grown b3 (sextet g 0)) 0 cs))
          (third_byte g t c h)

  -- No letter is the padding.
  unpadded :
      (g shift : ℕ) (cs ds : Text)
      → before_padding cs ≡ ds
      → before_padding (letter_at g shift ∷ cs) ≡ letter_at g shift ∷ ds
  unpadded g shift cs ds h =
      before_padding-letter alphabet v (sextet g shift) cs (sextet-small g shift)
      ∙ ap (λ x. letter_at g shift ∷ x) h

  padded : (cs : Text) → before_padding (61 ∷ cs) ≡ []
  unfolding before_padding
  padded cs = refl

  nothing : before_padding [] ≡ []
  unfolding before_padding
  nothing = refl

  done : (buffer bits : ℕ) → decode_from alphabet buffer bits [] ≡ some []
  unfolding decode_from
  done buffer bits = refl

  decode_from-encode :
      (bytes : Text) (buffer : ℕ)
      → all is_byte bytes ≡ true
      → decode_from alphabet buffer 0 (before_padding (encode bytes alphabet)) ≡ some bytes
  unfolding encode
  decode_from-encode [] buffer h = ap (decode_from alphabet buffer 0) nothing ∙ done buffer 0
  decode_from-encode (a ∷ []) buffer h =
      let g = group_from 0 0 (a ∷ []) in
      let b2 = grown (grown buffer (sextet g 18)) (sextet g 12) in
      ap (decode_from alphabet buffer 0) (unpadded g 18 _ _ (unpadded g 12 _ _ (padded (61 ∷ []))))
      ∙ two_letters g buffer a [] (ground (arith, h)) (ground (arith, h))
      ∙ ap (push_before a) (done b2 4)
  decode_from-encode (a ∷ b ∷ []) buffer h =
      let g = group_from 0 0 (a ∷ b ∷ []) in
      let b1 = grown buffer (sextet g 18) in
      let b3 = grown (grown b1 (sextet g 12)) (sextet g 6) in
      ap (decode_from alphabet buffer 0)
        (unpadded g 18 _ _ (unpadded g 12 _ _ (unpadded g 6 _ _ (padded []))))
      ∙ two_letters g buffer a _ (ground (arith, h)) (ground (arith, h))
      ∙ ap (push_before a)
          (third_letter g b1 b [] (ground (arith, h)) ∙ ap (push_before b) (done b3 2))
  decode_from-encode (a ∷ b ∷ c ∷ bytes) buffer h =
      let g = group_from 0 0 (a ∷ b ∷ c ∷ []) in
      let rest = before_padding (encode bytes alphabet) in
      let b1 = grown buffer (sextet g 18) in
      let b2 = grown b1 (sextet g 12) in
      let b4 = grown (grown b2 (sextet g 6)) (sextet g 0) in
      ap (decode_from alphabet buffer 0)
        (unpadded g 18 _ _ (unpadded g 12 _ _ (unpadded g 6 _ _ (unpadded g 0 _ rest refl))))
      ∙ two_letters g buffer a _ (ground (arith, h)) (ground (arith, h))
      ∙ ap (push_before a) (
          third_letter g b1 b _ (ground (arith, h))
          ∙ ap (push_before b) (
              fourth_letter g b2 c rest (ground (arith, h))
              ∙ ap (push_before c) (decode_from-encode bytes b4 (ground (arith, h)))))

  -- The text that bytes are encoded as, with its padding, is decoded as those bytes.
  pub decode-encode :
      (bytes : Text)
      → all is_byte bytes ≡ true
      → decode (encode bytes alphabet) alphabet ≡ some bytes
  unfolding decode
  decode-encode bytes h = decode_from-encode bytes 0 h
