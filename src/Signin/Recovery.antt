-- ===== src/Signin/Recovery.antt =====
-- backend/src/signin/recovery/mod.rs: the single-use recovery codes. A stored object that has exactly
-- the members `salt` and `codes` is a record of them, and so is an entry of `codes` that has exactly
-- `digest` and `used_at`. A typed text is the list of its characters. The scrypt digest, hexadecimal
-- and Python's `lower` are the parameters `scrypt`, `encode`, `decode` and `lower`.
pub mod Matching
pub mod Spending
pub mod Typing
mod Tests
use shimpz_admin.Prelude.{
  ℕ, zero, suc, ◌+◌, ite, Bool, true, false, not, ◌&&◌, ◌||◌, List, [], ◌∷◌, ◌++◌, Option, none,
  some, Text, Text-discrete, codes, map, length, all, keep, ltb, leb, ◌==◌, if◌then◌else◌,
  ℕ_discrete,
}
use shimpz_admin.Prelude.Int.{ℤ, pos, ltb_ℤ}
use shimpz_admin.Signin.Totp.{Value, null, int, text, other, as_int, as_str, is_null}

abbrev pub code_count : ℕ
code_count = 10

abbrev pub code_chars : ℕ
code_chars = 12

abbrev pub max_input_chars : ℕ
max_input_chars = 64

-- `ALPHABET`, as its ranges of characters: 0-9, a-h, j, k, m, n, p-t and v-z.
abbrev pub in_alphabet : ℕ → Bool
in_alphabet c =
    leb 48 c && leb c 57
    || leb 97 c && leb c 104
    || leb 106 c && leb c 107
    || leb 109 c && leb c 110
    || leb 112 c && leb c 116
    || leb 118 c && leb c 122

-- One stored code.
pub record Entry : Type 0 where
  pub digest : Value
  pub used_at : Value

-- A stored set; `stored` is `none` where it is no array, an item `none` where it is no such entry.
pub record CodeSet : Type 0 where
  pub salt : Value
  pub stored : Option (List (Option Entry))

abbrev is_hex : ℕ → Bool
is_hex c = leb 48 c && leb c 57 || leb 97 c && leb c 102

abbrev pub hex64 : Value → Bool
hex64 (text t) = length t == 64 && all is_hex t
hex64 _ = false

abbrev pub used_ok : Value → Bool
used_ok null = true
used_ok (int at) = not (ltb_ℤ at (pos 1))
used_ok _ = false

abbrev pub entry_ok : Option Entry → Bool
entry_ok none = false
entry_ok (some e) = used_ok e.used_at && hex64 e.digest

abbrev pub text_or_empty : Option Text → Text
text_or_empty none = []
text_or_empty (some t) = t

abbrev pub digest_of : Option Entry → Text
digest_of none = []
digest_of (some e) = text_or_empty (as_str e.digest)

abbrev pub is_among : Text → List Text → Bool
is_among t [] = false
is_among t (u ∷ us) = ite (Text-discrete t u) true (is_among t us)

-- How many texts `sort_unstable` and `dedup` leave.
abbrev pub distinct_count : List Text → ℕ
distinct_count [] = 0
distinct_count (t ∷ ts) = let rest = distinct_count ts in if is_among t ts then rest else suc rest

abbrev pub all_ok : List (Option Entry) → Bool
all_ok items =
    length items == code_count
    && all entry_ok items
    && distinct_count (map digest_of items) == code_count

abbrev pub items_ok : Option (List (Option Entry)) → Bool
items_ok none = false
items_ok (some items) = all_ok items

-- `validated`.
unfoldable pub validated : CodeSet → Bool
validated s = hex64 s.salt && items_ok s.stored

abbrev pub is_unused : Option Entry → Bool
is_unused none = false
is_unused (some e) = is_null e.used_at

abbrev pub items_of : Option (List (Option Entry)) → List (Option Entry)
items_of none = []
items_of (some items) = items

-- `remaining`; `none` is its error.
unfoldable pub remaining : CodeSet → Option ℕ
remaining s = if validated s then some (length (keep is_unused (items_of s.stored))) else none

-- `Candidate`.
pub record Candidate : Type 0 where
  pub salt : Text
  pub digest : Option Text

-- The test of the loop in `spend`.
abbrev pub is_match : Text → Option Entry → Bool
is_match presented item =
    ite (Text-discrete (digest_of item) presented) true false && is_unused item

-- The last match, and its index.
unfoldable pub last_match : Text → ℕ → List (Option Entry) → Option ℕ → Option ℕ
last_match presented index [] matched = matched
last_match presented index (item ∷ items) matched =
    last_match presented (index + 1) items (if is_match presented item then some index else matched)

abbrev pub mark : ℤ → Option Entry → Option Entry
mark now none = none
mark now (some e) = some (record e { used_at = int now })

unfoldable pub mark_at : ℤ → ℕ → List (Option Entry) → List (Option Entry)
mark_at now index [] = []
mark_at now zero (item ∷ items) = mark now item ∷ items
mark_at now (suc index) (item ∷ items) = item ∷ mark_at now index items

abbrev pub use_up : ℤ → CodeSet → Option ℕ → CodeSet × Bool
use_up now s none = (s, false)
use_up now s (some index) =
    (record s { stored = some (mark_at now index (items_of s.stored)) }, true)

-- `spend`; `none` is its error.
unfoldable pub spend : Candidate → ℤ → CodeSet → Option (CodeSet × Bool)
spend derived now s =
    if validated s
    then some (use_up now s (last_match (text_or_empty derived.digest) 0 (items_of s.stored) none))
    else none

-- `display`: groups of four characters, joined by hyphens.
unfoldable pub display : Text → Text
display (a ∷ b ∷ c ∷ d ∷ e ∷ rest) = a ∷ b ∷ c ∷ d ∷ 45 ∷ display (e ∷ rest)
display short = short

abbrev pub is_separator : ℕ → Bool
is_separator c = c == 32 || c == 45

abbrev pub as_code : Text → Option Text
as_code value = if length value == code_chars && all in_alphabet value then some value else none

module _ (lower : Text → Text) where
  abbrev normalized_text : Option Text → Option Text
  normalized_text none = none
  normalized_text (some typed) =
      if ltb max_input_chars (length typed)
      then none
      else as_code (keep (λ c. not (is_separator c)) (lower typed))

  unfoldable pub normalized : Value → Option Text
  normalized candidate = normalized_text (as_str candidate)

module _ (scrypt : Text → Text → Text) (encode : Text → Text) (decode : Text → Option Text)
    (lower : Text → Text) where
  abbrev digest_text : Option Text → Text → Option Text
  digest_text none salt = none
  digest_text (some code) salt = some (encode (scrypt code salt))

  abbrev derived_under : Text → Value → Option Text → Option Candidate
  derived_under salt typed none = none
  derived_under salt typed (some bytes) =
      some (record { salt = salt; digest = digest_text (normalized lower typed) bytes })

  -- `candidate`; `none` is its error.
  unfoldable pub candidate : CodeSet → Value → Option Candidate
  candidate s typed =
      let salt = text_or_empty (as_str s.salt) in
      if validated s then derived_under salt typed (decode salt) else none

  -- `new_set`, with the drawn salt and codes: what is shown, and the record.
  unfoldable pub new_set : Text → List Text → List Text × CodeSet
  new_set salt drawn = (
    map display drawn,
    record {
      salt = text (encode salt);
      stored = some (
          map (λ code. some (record { digest = text (encode (scrypt code salt)); used_at = null }))
            drawn);
    },
  )
