-- ===== src/Signin/Password/Tests.antt =====
-- Verifiers and the limiter at work.
use shimpz_admin.Prelude.{
  ℕ, ◌+◌, ◌-◌, ◌*◌, ◌/◌, ◌%◌, ◌≤◌, ◌≡◌, refl, Bool, true, false, ◌&&◌, ◌||◌, [], ◌∷◌, ◌++◌, Option,
  none, some, Text, codes, ◌==◌, Text-discrete, ℕ_discrete, List, length, all, leb, ltb, arith,
  if◌then◌else◌,
}
use shimpz_admin.Protocol.Origin.{split_once, strip_prefix}
use shimpz_admin.Signin.Totp.{text}
use shimpz_admin.Signin.Password.{
  verifier_prefix, occurs, repeated_unit, without_context, normalized_password, password_policy,
  new_password_verifier, password_material, verify_password, fresh, begin, finish,
}
use shimpz_admin.Signin.Password.Verifier.{Is32Bytes, IsHex, verify_password-new_password_verifier}
use shimpz_admin.Signin.Password.Limiter.{Event, asks, ends, start, step, run, Spaced, run-Spaced}

-- All that the tests evaluate.
password : Unit {0}
unfolding Text-discrete ℕ_discrete split_once strip_prefix occurs repeated_unit without_context
    normalized_password password_policy new_password_verifier password_material verify_password
    fresh begin finish start step run
password = tt

-- Hexadecimal, for the test.
abbrev digit : ℕ → ℕ
digit n = if ltb n 10 then 48 + n else 87 + n

abbrev value : ℕ → ℕ
value c = if ltb c 58 then c - 48 else c - 87

abbrev to_hex : Text → Text
to_hex [] = []
to_hex (c ∷ t) = digit (c / 16 % 16) ∷ digit (c % 16) ∷ to_hex t

abbrev with_byte : ℕ → Option Text → Option Text
with_byte c none = none
with_byte c (some t) = some (c ∷ t)

abbrev from_hex : Text → Option Text
from_hex [] = some []
from_hex (a ∷ []) = none
from_hex (a ∷ b ∷ t) = with_byte (value a * 16 + value b) (from_hex t)

value-digit : (n : ℕ) → n ≤ 15 → value (digit n) ≡ n
value-digit n h = ground arith

byte_parts :
    (c : ℕ) → ltb c 256 ≡ true → value (digit (c / 16 % 16)) * 16 + value (digit (c % 16)) ≡ c
byte_parts c h = ground arith

from_hex-to_hex : (t : Text) → all (λ c. ltb c 256) t ≡ true → from_hex (to_hex t) ≡ some t
from_hex-to_hex [] h = refl
from_hex-to_hex (c ∷ t) h =
    let r = from_hex-to_hex t (ground (arith, h)) in
    let p = byte_parts c (ground (arith, h)) in rw (r, p) refl

digit_fits :
    (n : ℕ)
    → n ≤ 15
    → leb 48 (digit n) && leb (digit n) 57 || leb 97 (digit n) && leb (digit n) 102 ≡ true
digit_fits n h = ground arith

hex_digits : (t : Text) → all (λ c. leb 48 c && leb c 57 || leb 97 c && leb c 102) (to_hex t) ≡ true
hex_digits [] = refl
hex_digits (c ∷ t) =
    rw (digit_fits (c / 16 % 16) (omega arith), digit_fits (c % 16) (omega arith)) (hex_digits t)

length-to_hex : (t : Text) → length (to_hex t) ≡ 2 * length t
length-to_hex [] = refl
length-to_hex (c ∷ t) = omega (arith, length-to_hex t)

to_hex-IsHex : IsHex to_hex from_hex
to_hex-IsHex = record {
  digits = λ t h. ground (arith, length-to_hex t, h.0, hex_digits t);
  reads = λ t h. from_hex-to_hex t h.1;
}

abbrev pass : Text
pass = codes "correct horse battery staple"

abbrev salt : Text
salt = codes "0123456789abcdef0123456789abcdef"

-- A stand-in for scrypt.
abbrev derive : Text → Text → Text
derive t s = codes "fedcba9876543210fedcba9876543210"

abbrev is_blank : ℕ → Bool
is_blank c = c == 32

abbrev unlisted : Text → Bool
unlisted t = false

abbrev same_text : Text → Text
same_text t = t

abbrev verifier : Text
verifier = verifier_prefix ++ to_hex salt ++ 36 ∷ to_hex (derive pass salt)

admitted :
    new_password_verifier is_blank same_text same_text unlisted derive to_hex salt pass
    ≡ (none, verifier)
unfolding password
admitted = refl

derives : (t s : Text) → Is32Bytes (derive t s)
derives t s = (refl, refl)

verify_password-new_password_verifier_example :
    verify_password derive from_hex pass (some (text verifier)) ≡ (true, none)
unfolding password
verify_password-new_password_verifier_example =
    verify_password-new_password_verifier is_blank same_text same_text unlisted derive to_hex
      from_hex to_hex-IsHex derives salt pass pass verifier (refl, refl) admitted (omega arith)
      (omega arith)

-- Five rejected passwords, and another login while the limiter is locked.
abbrev rejects : List (ℕ × Event)
rejects =
    (5, asks)
    ∷ (1, ends (some true))
    ∷ (1, asks)
    ∷ (1, ends (some true))
    ∷ (1, asks)
    ∷ (1, ends (some true))
    ∷ (1, asks)
    ∷ (1, ends (some true))
    ∷ (1, asks)
    ∷ (1, ends (some true))
    ∷ (1, asks)
    ∷ (1, ends (some true))
    ∷ (59999, asks)
    ∷ (1, ends (some true))
    ∷ []

six_rejected : (run rejects start).rejected ≡ 60016 ∷ 14 ∷ 12 ∷ 10 ∷ 8 ∷ 6 ∷ []
unfolding password
six_rejected = refl

run-Spaced_example : ((run rejects start).permits ≤ 1) × Spaced (60016 ∷ 14 ∷ 12 ∷ 10 ∷ 8 ∷ 6 ∷ [])
unfolding password
run-Spaced_example = run-Spaced rejects
