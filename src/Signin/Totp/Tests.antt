-- ===== src/Signin/Totp/Tests.antt =====
-- The one-time-code factor at work, with a message authentication code that repeats the last byte of
-- the message and a base32 decoder that yields 20 bytes.
use shimpz_admin.Prelude.{
  ℕ, ◌≡◌, ◌≢◌, refl, true, false, [], ◌∷◌, Option, none, some, arith, Text, codes, Text-discrete,
  ℕ_discrete, get_elem?,
}
use shimpz_admin.Prelude.Int.{ℤ, pos, ltb_ℤ, ◌+ℤ◌}
use shimpz_admin.Signin.Totp.{
  Value, int, text, Factor, as_int, accepted, invalid, locked, status_of, new_record, accept, hotp,
  decode_secret, validated, is_locked, has_expired, lock_seconds, record_failure, matched_step,
  verify, resume, enrollment,
}
use shimpz_admin.Signin.Totp.Replay.{Sound, attempts, verify-Sound, never_twice}
use shimpz_admin.Signin.Totp.Stored.{verify-validated}
use shimpz_admin.Signin.Totp.Refusal.{refusal_locks}

totp : Unit {0}
unfolding ◌+ℤ◌ Text-discrete ℕ_discrete status_of new_record hotp decode_secret validated is_locked
    lock_seconds record_failure matched_step verify attempts resume enrollment
totp = tt

abbrev last_byte : Option ℕ → ℕ
last_byte none = 0
last_byte (some b) = b

abbrev bytes : ℕ → Text
bytes b = 0 ∷ 0 ∷ 0 ∷ b ∷ 0 ∷ 0 ∷ 0 ∷ 0 ∷ 0 ∷ 0 ∷ 0 ∷ 0 ∷ 0 ∷ 0 ∷ 0 ∷ 0 ∷ 0 ∷ 0 ∷ 0 ∷ 0 ∷ []

abbrev repeating : Text → Text → Text
repeating key message = bytes (last_byte (get_elem? message 7))

abbrev twenty : Text → Option Text
twenty secret = some (bytes 7)

abbrev started : Factor
started = new_record (codes "GEZDGNBVGY3TQOJQGEZDGNBVGY3TQOJQ") (pos 1000)

abbrev first : Value
first = text (codes "000033")

abbrev second : Value
second = text (codes "000034")

abbrev confirmed : Factor
confirmed = accept (pos 1000) (pos 33) started

confirms : verify repeating twenty first (pos 1000) started ≡ some (confirmed, accepted)
unfolding totp
confirms = refl

verify-Sound_example : Sound repeating twenty first (pos 1000) started confirmed
verify-Sound_example = verify-Sound repeating twenty first (pos 1000) started confirmed confirms

abbrev replayed : Factor
replayed = record confirmed { failures = int (pos 1) }

refuses : verify repeating twenty first (pos 1001) confirmed ≡ some (replayed, invalid)
unfolding totp
refuses = refl

goes_on :
    verify repeating twenty second
      (pos 1020)
      (attempts repeating twenty ((first, pos 1001) ∷ []) confirmed)
    ≡ some (accept (pos 1020) (pos 34) replayed, accepted)
unfolding totp
goes_on = refl

holds_33 : confirmed.last_accepted_step ≡ int (pos 33)
unfolding totp
holds_33 = refl

never_twice_example :
    (t : ℤ) × ((accept (pos 1020) (pos 34) replayed).last_accepted_step ≡ int t)
    × (ltb_ℤ (pos 33) t ≡ true)
never_twice_example =
    never_twice repeating twenty second (pos 1020) confirmed (accept (pos 1020) (pos 34) replayed)
      ((first, pos 1001) ∷ []) (pos 33) holds_33 goes_on

created : as_int started.created_at ≡ some (pos 1000)
unfolding totp
created = refl

verify-validated_example : validated twenty confirmed ≡ true
verify-validated_example =
    verify-validated repeating twenty first (pos 1000) started confirmed accepted (pos 1000) created
      refl confirms

abbrev worn : Factor
worn = record confirmed { failures = int (pos 6) }

worn-validated : validated twenty worn ≡ true
unfolding totp
worn-validated = refl

worn-expired : has_expired worn (pos 3199) ≡ false
unfolding totp
worn-expired = refl

abbrev refused_once : Factor
refused_once = record worn { failures = int (pos 7); locked_until = int (pos 3200) }

worn-refused : verify repeating twenty first (pos 2000) worn ≡ some (refused_once, locked)
unfolding totp
worn-refused = refl

locked-accepted : locked ≢ accepted
locked-accepted e = cc

refusal_locks_example :
    (locked ≡ locked)
    × (as_int refused_once.failures ≡ some (pos 7))
    × (verify repeating twenty second (pos 3199) refused_once ≡ some (refused_once, locked))
unfolding totp
refusal_locks_example =
    refusal_locks repeating twenty first second 2000 3199 2 worn refused_once locked worn-validated
      refl worn-expired worn-expired refl (omega arith) (omega arith) worn-refused locked-accepted
