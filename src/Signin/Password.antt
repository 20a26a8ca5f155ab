-- ===== src/Signin/Password.antt =====
-- backend/src/signin/password/mod.rs: the password's policy, its verifier, and the login limiter. A
-- password is the list of its characters. Unicode normalization and case folding, the blocklist file,
-- scrypt and hexadecimal come from elsewhere: they are parameters. The monotonic clock is an argument.
pub mod Limiter
pub mod Verifier
mod Tests
use shimpz_admin.Prelude.{
  ℕ, zero, suc, ◌+◌, ◌-◌, ◌*◌, ◌/◌, ◌%◌, ◌^◌, max, ite, Bool, true, false, not, ◌&&◌, ◌||◌, List,
  [], ◌∷◌, ◌++◌, Option, none, some, Text, Text-discrete, codes, length, ltb, leb, ◌==◌,
  if◌then◌else◌,
}
use shimpz_admin.Protocol.Origin.{split_once, strip_prefix, same}
use shimpz_admin.Signin.Totp.{Value, null, text, int, other}
use shimpz_admin.Signin.Recovery.{hex64}

abbrev pub min_password_chars : ℕ
min_password_chars = 15

abbrev pub max_password_chars : ℕ
max_password_chars = 4 * 1024

abbrev pub login_failure_limit : ℕ
login_failure_limit = 5

abbrev pub login_lock_ms : ℕ
login_lock_ms = 60 * 1000

abbrev pub context_words : List Text
context_words = codes "shimpz" ∷ codes "supervisor" ∷ codes "admin" ∷ []

-- What every verifier starts with.
abbrev pub verifier_prefix : Text
verifier_prefix = codes "scrypt-v1$ln=14,r=8,p=5,dk=32$"

pub data PolicyViolation : Type 0 where
  too_short too_long blocklisted : PolicyViolation

-- A text without its last character, and the characters of two texts that one follows in the other.
abbrev pub init : Text → Text
init [] = []
init (c ∷ []) = []
init (c ∷ d ∷ t) = c ∷ init (d ∷ t)

abbrev tail : Text → Text
tail [] = []
tail (c ∷ t) = t

abbrev starts_with : Text → Text → Bool
starts_with [] t = true
starts_with (p ∷ ps) [] = false
starts_with (p ∷ ps) (c ∷ t) = p == c && starts_with ps t

-- Does a text, as a window of its length, occur in another?
unfoldable pub occurs : Text → Text → Bool
occurs p [] = starts_with p []
occurs p (c ∷ t) = starts_with p (c ∷ t) || occurs p t

unfoldable pub repeated_unit : Text → Bool
repeated_unit value =
    if leb (length value) 1 then false else occurs value (init (tail (value ++ value)))

-- `str::replace` by nothing of a word that is not empty: each occurrence, from the left. The fuel is
-- the length of the text, of which every round takes a character.
abbrev pub taken_out : Text → ℕ → Text → Text
taken_out word zero t = t
taken_out word (suc fuel) [] = []
taken_out word (suc fuel) (c ∷ t) = elim (strip_prefix word (c ∷ t)) [
  | some rest ↦ taken_out word fuel rest
  | none ↦ c ∷ taken_out word fuel t
]

abbrev pub replaced : Text → Text → Text
replaced word t = taken_out word (length t) t

abbrev pub without_words : List Text → Text → Text
without_words [] t = t
without_words (w ∷ ws) t = without_words ws (replaced w t)

-- `split(isspace)`, without the empty words, joined by single spaces: the word so far comes first.
abbrev pub put_word : Text → List Text → List Text
put_word [] ws = ws
put_word (c ∷ w) ws = (c ∷ w) ∷ ws

abbrev split_words : (ℕ → Bool) → Text → Text → List Text
split_words space word [] = put_word word []
split_words space word (c ∷ t) =
    let ended = split_words space [] t in
    let longer = split_words space (word ++ c ∷ []) t in
    if space c then put_word word ended else longer

abbrev join_words : List Text → Text
join_words [] = []
join_words (w ∷ []) = w
join_words (w ∷ v ∷ ws) = w ++ 32 ∷ join_words (v ∷ ws)

abbrev pub collapsed : (ℕ → Bool) → Text → Text
collapsed space t = join_words (split_words space [] t)

module _ (isspace : ℕ → Bool) where
  unfoldable pub without_context : Text → Text
  without_context normalized = collapsed isspace (without_words context_words normalized)

  module _ (nfkc : Text → Text) (casefold : Text → Text) (is_listed : Text → Bool) where
    unfoldable pub normalized_password : Text → Text
    normalized_password password = collapsed isspace (casefold (nfkc password))

    abbrev pub is_guessable : Text → Text → Bool
    is_guessable normalized remainder =
        is_listed normalized
        || repeated_unit normalized
        || is_listed remainder
        || repeated_unit remainder
        || ltb (length remainder) min_password_chars

    unfoldable pub password_policy : Text → Option PolicyViolation
    password_policy password =
        let normalized = normalized_password password in
        if ltb (length password) min_password_chars
        then some too_short
        else if ltb max_password_chars (length password)
        then some too_long
        else if ltb (length normalized) min_password_chars
        then some too_short
        else if is_guessable normalized (without_context normalized)
        then some blocklisted
        else none

    -- `new_password_verifier`, with the drawn salt: a violation, or the verifier.
    unfoldable pub new_password_verifier :
        (Text → Text → Text) → (Text → Text) → Text → Text → Option PolicyViolation × Text
    new_password_verifier scrypt encode salt password = elim (password_policy password) [
      | some violation ↦ (some violation, [])
      | none ↦ (none, verifier_prefix ++ encode salt ++ 36 ∷ encode (scrypt password salt))
    ]

abbrev pub hex_text : (Text → Option Text) → Text → Option Text
hex_text decode t = if hex64 (text t) then decode t else none

abbrev pub both : Option Text → Option Text → Option (Text × Text)
both (some salt) (some digest) = some (salt, digest)
both _ _ = none

abbrev pub parts_material : (Text → Option Text) → Option (Text × Text) → Option (Text × Text)
parts_material decode none = none
parts_material decode (some (salt, digest)) = both (hex_text decode salt) (hex_text decode digest)

abbrev pub rest_material : (Text → Option Text) → Option Text → Option (Text × Text)
rest_material decode none = none
rest_material decode (some rest) = parts_material decode (split_once 36 rest)

-- An admitted material, where there is one.
abbrev pub settled : Option (Text × Text) → Option (Option (Text × Text))
settled none = none
settled (some material) = some (some material)

-- `password_material` of the member `password_verifier`; no result is its error.
unfoldable pub password_material :
    (Text → Option Text) → Option Value → Option (Option (Text × Text))
password_material decode none = some none
password_material decode (some null) = some none
password_material decode (some (text t)) =
    settled (rest_material decode (strip_prefix verifier_prefix t))
password_material decode (some (int n)) = none
password_material decode (some other) = none

abbrev pub present : Option (Option (Text × Text)) → Option Bool
present none = none
present (some none) = some false
present (some (some material)) = some true

unfoldable pub password_set : (Text → Option Text) → Option Value → Option Bool
password_set decode verifier = present (password_material decode verifier)

-- Why a password could not be checked.
pub data VerifyError : Type 0 where
  input record_error : VerifyError

abbrev compared :
    (Text → Text → Text) → Text → Option (Option (Text × Text)) → Bool × Option VerifyError
compared scrypt password none = (false, some record_error)
compared scrypt password (some none) = (false, some record_error)
compared scrypt password (some (some (salt, digest))) = (same (scrypt password salt) digest, none)

-- `verify_password`: whether the password is the one, unless there is an error.
unfoldable pub verify_password :
    (Text → Text → Text) → (Text → Option Text) → Text → Option Value → Bool × Option VerifyError
verify_password scrypt decode password verifier =
    if leb 1 (length password) && leb (length password) max_password_chars
    then compared scrypt password (password_material decode verifier)
    else (false, some input)

pub record LimiterState : Type 0 where
  pub in_flight : Bool
  pub failures : ℕ  -- u32
  pub locked_until_ms : ℕ

unfoldable pub fresh : LimiterState
fresh = record { in_flight = false; failures = 0; locked_until_ms = 0 }

-- What `begin` goes on from once no lock is in force.
abbrev unlocked : LimiterState → LimiterState
unlocked s = if s.locked_until_ms == 0 then s else record s { failures = 0; locked_until_ms = 0 }

abbrev reserve : LimiterState → LimiterState × Option ℕ
reserve s = if s.in_flight then (s, some 1) else (record s { in_flight = true }, none)

-- `LoginLimiter::begin`: no second result is a permit, one is the seconds to retry after.
unfoldable pub begin : ℕ → LimiterState → LimiterState × Option ℕ
begin now s =
    if ltb now s.locked_until_ms
    then (s, some (max ((s.locked_until_ms - now + 999) / 1000) 1))
    else reserve (unlocked s)

abbrev rejection : ℕ → LimiterState → LimiterState × ℕ
rejection now s =
    if ltb s.failures login_failure_limit
    then (s, 0)
    else (record s { locked_until_ms = now + login_lock_ms }, login_lock_ms / 1000)

-- `LoginLimiter::finish`, which a permit calls once: with the outcome, or with none when it is dropped.
unfoldable pub finish : ℕ → Option Bool → LimiterState → LimiterState × ℕ
finish now none s = (record s { in_flight = false }, 0)
finish now (some false) s = (record s { in_flight = false; failures = 0; locked_until_ms = 0 }, 0)
finish now (some true) s =
    rejection now (record s { in_flight = false; failures = (s.failures + 1) % 2 ^ 32 })
