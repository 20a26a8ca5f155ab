-- ===== src/Protocol/Base64.antt =====
-- protocol/team/http/src/python/base64.rs. A text is the list of its bytes.
pub mod Groups
pub mod Decoded
mod Tests
use shimpz_admin.Prelude.{
  ℕ, zero, suc, ◌+◌, ◌-◌, ◌*◌, ◌/◌, ◌%◌, ◌^◌, Bool, true, false, List, [], ◌∷◌, ◌++◌, Option, none,
  some, Text, length, get_elem?, ltb, leb, ◌==◌, if◌then◌else◌,
}

unfoldable pub standard : Text
standard =
    65 ∷ 66 ∷ 67 ∷ 68 ∷ 69 ∷ 70 ∷ 71 ∷ 72 ∷ 73 ∷ 74 ∷ 75 ∷ 76 ∷ 77 ∷ 78 ∷ 79 ∷ 80 ∷ 81 ∷ 82 ∷ 83
    ∷ 84 ∷ 85 ∷ 86 ∷ 87 ∷ 88 ∷ 89 ∷ 90 ∷ 97 ∷ 98 ∷ 99 ∷ 100 ∷ 101 ∷ 102 ∷ 103 ∷ 104 ∷ 105 ∷ 106
    ∷ 107 ∷ 108 ∷ 109 ∷ 110 ∷ 111 ∷ 112 ∷ 113 ∷ 114 ∷ 115 ∷ 116 ∷ 117 ∷ 118 ∷ 119 ∷ 120 ∷ 121 ∷ 122
    ∷ 48 ∷ 49 ∷ 50 ∷ 51 ∷ 52 ∷ 53 ∷ 54 ∷ 55 ∷ 56 ∷ 57 ∷ 43 ∷ 47 ∷ []

unfoldable pub url_safe : Text
url_safe =
    65 ∷ 66 ∷ 67 ∷ 68 ∷ 69 ∷ 70 ∷ 71 ∷ 72 ∷ 73 ∷ 74 ∷ 75 ∷ 76 ∷ 77 ∷ 78 ∷ 79 ∷ 80 ∷ 81 ∷ 82 ∷ 83
    ∷ 84 ∷ 85 ∷ 86 ∷ 87 ∷ 88 ∷ 89 ∷ 90 ∷ 97 ∷ 98 ∷ 99 ∷ 100 ∷ 101 ∷ 102 ∷ 103 ∷ 104 ∷ 105 ∷ 106
    ∷ 107 ∷ 108 ∷ 109 ∷ 110 ∷ 111 ∷ 112 ∷ 113 ∷ 114 ∷ 115 ∷ 116 ∷ 117 ∷ 118 ∷ 119 ∷ 120 ∷ 121 ∷ 122
    ∷ 48 ∷ 49 ∷ 50 ∷ 51 ∷ 52 ∷ 53 ∷ 54 ∷ 55 ∷ 56 ∷ 57 ∷ 45 ∷ 95 ∷ []

abbrev pub padding : ℕ
padding = 61

abbrev pub or_nul : Option ℕ → ℕ
or_nul none = 0
or_nul (some c) = c

-- The fold over a chunk, from a place of it on.
abbrev pub group_from : ℕ → ℕ → Text → ℕ
group_from index group [] = group
group_from index group (byte ∷ bytes) =
    group_from (index + 1) (group + byte * 2 ^ (16 - 8 * index)) bytes

abbrev pub letter : Text → Text → ℕ → ℕ
letter alphabet chunk index =
    if leb index (length chunk)
    then or_nul (get_elem? alphabet (group_from 0 0 chunk / 2 ^ (18 - 6 * index) % 64))
    else padding

abbrev pub letters : Text → Text → Text
letters alphabet chunk =
    letter alphabet chunk 0
    ∷ letter alphabet chunk 1
    ∷ letter alphabet chunk 2
    ∷ letter alphabet chunk 3
    ∷ []

-- The chunks are three bytes each, the last one may be shorter.
unfoldable pub encode : Text → Text → Text
encode [] alphabet = []
encode (a ∷ []) alphabet = letters alphabet (a ∷ [])
encode (a ∷ b ∷ []) alphabet = letters alphabet (a ∷ b ∷ [])
encode (a ∷ b ∷ c ∷ rest) alphabet = letters alphabet (a ∷ b ∷ c ∷ []) ++ encode rest alphabet

-- `position`.
unfoldable pub place : Text → ℕ → ℕ → Option ℕ
place [] character index = none
place (known ∷ alphabet) character index =
    let rest = place alphabet character (index + 1) in
    if known == character then some index else rest

abbrev pub push_before : ℕ → Option Text → Option Text
push_before byte none = none
push_before byte (some bytes) = some (byte ∷ bytes)

-- `take_while`.
unfoldable pub before_padding : Text → Text
before_padding [] = []
before_padding (c ∷ cs) = let rest = before_padding cs in if c == padding then [] else c ∷ rest

-- The loop over the characters: the bytes it pushes from here on. A shift of the 32-bit buffer drops
-- its high bits.
unfoldable pub decode_from : Text → ℕ → ℕ → Text → Option Text
decode_from alphabet buffer bits [] = some []
decode_from alphabet buffer bits (c ∷ cs) = elim (place alphabet c 0) [
  | none ↦ none
  | some sextet ↦
      let grown = buffer * 64 % 2 ^ 32 + sextet in
      let rest = decode_from alphabet grown (bits + 6) cs in
      let rest' = decode_from alphabet grown (bits + 6 - 8) cs in
      elim (leb 8 (bits + 6)) [
        | true ↦ push_before (grown / 2 ^ (bits + 6 - 8) % 256) rest'
        | false ↦ rest
      ]
]

unfoldable pub decode : Text → Text → Option Text
decode text alphabet = decode_from alphabet 0 0 (before_padding text)
