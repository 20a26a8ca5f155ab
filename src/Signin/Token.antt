-- ===== src/Signin/Token.antt =====
-- backend/src/signin/token/mod.rs: the signed session token. The signature, HMAC-SHA-256 in hexadecimal
-- under a key in hexadecimal, comes from libraries: it is the parameter `signature`. The clocks and the
-- drawn nonce are arguments; the wall clock is in milliseconds.
use shimpz_admin.Prelude.{
  ℕ, ◌+◌, ◌-◌, ◌*◌, ◌^◌, Bool, true, false, not, ◌&&◌, ◌||◌, List, [], ◌∷◌, ◌++◌, Option, none,
  some, Text, codes, length, all, ltb, leb, ◌==◌, if◌then◌else◌,
}
use shimpz_admin.Prelude.Int.{ℤ, pos, negsuc, ◌+ℤ◌, ◌-ℤ◌, ltb_ℤ, scale, wrap}
use shimpz_admin.Protocol.Origin.{same, strip_prefix, is_digit}
use shimpz_admin.Signin.Sessions.{Sessions, Ended, nothing, register, current, idle_remaining_ms}

abbrev pub ttl_seconds : ℕ
ttl_seconds = 24 * 3600

abbrev pub scheme : Text
scheme = codes "v3"

abbrev pub sign_in_prefix : Text
sign_in_prefix = codes "pwd+"

-- The second factor that completed a sign-in.
pub data Method : Type 0 where
  totp webauthn : Method

abbrev pub name : Method → Text
name totp = codes "totp"
name webauthn = codes "webauthn"

abbrev pub parse : Text → Option Method
parse t =
    if same t (name totp) then some totp else if same t (name webauthn) then some webauthn else none

pub record Evidence : Type 0 where
  pub issued_at : ℕ
  pub method : Method

-- `i64::saturating_mul(1000)`.
abbrev top : ℕ
top = 2 ^ 63 - 1

abbrev pub clamped : ℤ → ℤ
clamped (pos n) = if ltb top n then pos top else pos n
clamped (negsuc n) = if ltb top n then negsuc top else negsuc n

abbrev pub expires_at : Evidence → ℤ
expires_at e = wrap (pos e.issued_at +ℤ pos ttl_seconds)

-- `str::split(':')`.
abbrev longer : ℕ → List Text → List Text
longer c [] = (c ∷ []) ∷ []
longer c (w ∷ ws) = (c ∷ w) ∷ ws

unfoldable pub split : Text → List Text
split [] = [] ∷ []
split (c ∷ t) = let rest = split t in if c == 58 then [] ∷ rest else longer c rest

abbrev pub value_of : Text → ℕ → ℕ
value_of [] n = n
value_of (c ∷ t) n = value_of t (n * 10 + (c - 48))

abbrev pub is_empty : Text → Bool
is_empty [] = true
is_empty (c ∷ t) = false

abbrev pub is_hex : ℕ → Bool
is_hex c = leb 48 c && leb c 57 || leb 97 c && leb c 102

abbrev pub joined : Text → Text → Method → Text
joined issued nonce method =
    scheme ++ 58 ∷ issued ++ 58 ∷ nonce ++ 58 ∷ sign_in_prefix ++ name method

abbrev dated : Text → Method → Option Evidence
dated issued method =
    if ltb (value_of issued 0) (2 ^ 63)
    then some (record { issued_at = value_of issued 0; method = method })
    else none

abbrev named : Option Text → Option Method
named none = none
named (some t) = parse t

module _ (signature : Text → Text → Option Text) where
  abbrev pub signed : Text → Text → Text → Option Text → Method → Option Evidence
  signed issued nonce sig none method = none
  signed issued nonce sig (some expected) method =
      if same sig expected && not (is_empty issued) && all is_digit issued
      then dated issued method
      else none

  abbrev pub of_parts : Text → Text → Text → Text → Text → Option Method → Option Evidence
  of_parts secret s issued nonce sig none = none
  of_parts secret s issued nonce sig (some method) =
      if same s scheme && length sig == 64 && all is_hex sig
      then signed issued nonce sig (signature secret (joined issued nonce method)) method
      else none

  abbrev pub of_split : Text → List Text → Option Evidence
  of_split secret (s ∷ issued ∷ nonce ∷ method ∷ sig ∷ []) =
      of_parts secret s issued nonce sig (named (strip_prefix sign_in_prefix method))
  of_split secret _ = none

  unfoldable pub signed_evidence : Text → Text → Option Evidence
  signed_evidence secret token =
      if is_empty secret || is_empty token then none else of_split secret (split token)

  abbrev or_empty : Option Text → Text
  or_empty none = []
  or_empty (some t) = t

  module _ (digest : Text → Text) where
    -- `issue`, with the decimal text of `issued_at`; the token is the last result.
    unfoldable pub issue : ℕ → Text → Method → Text → Text → Sessions → Sessions × Ended × Text
    issue monotonic secret method issued nonce sessions =
        let body = joined issued nonce method in
        let token = body ++ 58 ∷ or_empty (signature secret body) in
        let (sessions', ended) = register digest monotonic token sessions in
        (sessions', ended, token)

    abbrev pub in_time : ℤ → Evidence → Bool
    in_time now e =
        not (ltb_ℤ now (clamped (scale 1000 (pos e.issued_at))))
        && ltb_ℤ now (clamped (scale 1000 (expires_at e)))

    abbrev kept : Evidence → Sessions × Ended × Bool → Sessions × Ended × Option Evidence
    kept e (sessions, ended, true) = (sessions, ended, some e)
    kept e (sessions, ended, false) = (sessions, ended, none)

    abbrev pub verified :
        ℕ → ℤ → Text → Bool → Sessions → Option Evidence → Sessions × Ended × Option Evidence
    verified monotonic now token activity sessions none = (sessions, nothing, none)
    verified monotonic now token activity sessions (some e) =
        if in_time now e
        then kept e (current digest monotonic token activity sessions)
        else (sessions, nothing, none)

    unfoldable pub verify :
        ℕ → ℤ → Text → Text → Bool → Sessions → Sessions × Ended × Option Evidence
    verify monotonic now secret token activity sessions =
        verified monotonic now token activity sessions (signed_evidence secret token)

    abbrev at_least_zero : ℤ → ℤ
    at_least_zero (pos n) = pos n
    at_least_zero (negsuc n) = pos 0

    abbrev until : ℤ → Evidence → Option ℕ → Option (ℕ × ℤ)
    until now e none = none
    until now e (some idle) =
        some (idle, at_least_zero (clamped (scale 1000 (expires_at e)) -ℤ now))

    abbrev deadlines_of : ℕ → ℤ → Text → Sessions → Option Evidence → Option (ℕ × ℤ)
    deadlines_of monotonic now token sessions none = none
    deadlines_of monotonic now token sessions (some e) =
        until now e (idle_remaining_ms digest monotonic token sessions)

    unfoldable pub deadlines : ℕ → ℤ → Text → Text → Sessions → Option (ℕ × ℤ)
    deadlines monotonic now secret token sessions =
        deadlines_of monotonic now token sessions (signed_evidence secret token)
