-- ===== src/Protocol/Base64/Tests.antt =====
-- Texts of `base64`.
use shimpz_admin.Prelude.{◌≡◌, refl, ◌∷◌, [], some, none, Text}
use shimpz_admin.Protocol.Base64.{
  standard, url_safe, encode, decode, decode_from, before_padding, place,
}
use shimpz_admin.Protocol.Base64.Groups.{standard-IsAlphabet}
use shimpz_admin.Protocol.Base64.Decoded.{decode-encode}

abbrev foob : Text
foob = 102 ∷ 111 ∷ 111 ∷ 98 ∷ []

-- "Zm9vYg==".
encode-foob : encode foob standard ≡ 90 ∷ 109 ∷ 57 ∷ 118 ∷ 89 ∷ 103 ∷ 61 ∷ 61 ∷ []
unfolding encode standard
encode-foob = refl

-- The low bits of a last character that complete no byte are dropped: "Zh==".
decode_low_bits : decode (90 ∷ 104 ∷ 61 ∷ 61 ∷ []) standard ≡ some (102 ∷ [])
unfolding decode decode_from before_padding place standard
decode_low_bits = refl

-- "-_8=".
encode-url_safe : encode (251 ∷ 255 ∷ []) url_safe ≡ 45 ∷ 95 ∷ 56 ∷ 61 ∷ []
unfolding encode url_safe
encode-url_safe = refl

-- "Z@==".
decode_refused : decode (90 ∷ 64 ∷ 61 ∷ 61 ∷ []) standard ≡ none
unfolding decode decode_from before_padding place standard
decode_refused = refl

decode-encode_example : decode (encode foob standard) standard ≡ some foob
decode-encode_example = decode-encode standard standard-IsAlphabet foob refl
