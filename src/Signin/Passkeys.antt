-- ===== src/Signin/Passkeys.antt =====
-- backend/src/signin/passkeys/mod.rs: the RP id of an origin, identifiers, and the one-process
-- challenges. The monotonic clock and the drawn bytes are arguments; the SHA-256 digest and the test of
-- an IPv4 address come from libraries and are the parameters `digest` and `is_ipv4`.
use shimpz_admin.Prelude.{
  ℕ, ◌+◌, ◌*◌, Bool, true, false, not, ◌&&◌, ◌||◌, [], ◌∷◌, Option, none, some, Text, Text-discrete,
  codes, length, all, ltb, leb, ◌==◌, if◌then◌else◌,
}
use shimpz_admin.Prelude.Int.{ℤ}
use shimpz_admin.Prelude.Table.{Table, lookup, insert, erase, retain, only}
use shimpz_admin.Protocol.Origin.{
  canonical_origin, split_once, strip_prefix, host_parts, lowercase, has, same, is_alpha, is_digit,
  http, https,
}

abbrev pub challenge_ttl_ms : ℕ
challenge_ttl_ms = 180 * 1000

abbrev pub challenge_capacity : ℕ
challenge_capacity = 64

abbrev pub max_passkeys : ℕ
max_passkeys = 8

pub data PasskeyError : Type 0 where
  invalid unavailable conflict : Text → PasskeyError

pub data Ceremony : Type 0 where
  authentication registration : Ceremony

unfoldable pub Key-discrete : Discrete (Text × Ceremony)
unfolding Text-discrete
Key-discrete = hlevel Text-discrete

-- `origin.split_once("://")`.
abbrev pub past : ℕ → Option (Text × Text) → Option (Text × Text)
past x none = none
past x (some (a, b)) = some (x ∷ a, b)

abbrev cut : Text → Option Text → Option (Text × Text) → Option (Text × Text)
cut [] none rest = none
cut (x ∷ xs) none rest = past x rest
cut t (some after) rest = some ([], after)

unfoldable pub split_scheme : Text → Option (Text × Text)
split_scheme [] = none
split_scheme (x ∷ xs) =
    let rest = split_scheme xs in cut (x ∷ xs) (strip_prefix (codes "://") (x ∷ xs)) rest

abbrev is_empty : Text → Bool
is_empty [] = true
is_empty (c ∷ t) = false

module _ (is_ipv4 : Text → Bool) where
  -- The RP id of a scheme and a lowercased host.
  abbrev pub rp_id_of_host : Text → Text → Option Text
  rp_id_of_host scheme host =
      if is_empty host
      then none
      else if same scheme http && same host (codes "localhost")
      then some host
      else if not (same scheme https)
          || not (not (is_ipv4 host) && (has 46 host || same host (codes "localhost")))
      then none
      else some host

  abbrev pub rp_id_of_parts : Option (Text × Text) → Option Text
  rp_id_of_parts none = none
  rp_id_of_parts (some (scheme, netloc)) =
      if has 64 netloc
      then none
      else rp_id_of_host scheme (lowercase (host_parts netloc (split_once 58 netloc)).0)

  abbrev is_itself : Text → Option Text → Bool
  is_itself t none = false
  is_itself t (some u) = same u t

  -- `rp_id_for_origin`; no result is its one error.
  unfoldable pub rp_id_for_origin : Text → Option Text
  rp_id_for_origin origin =
      if is_itself origin (canonical_origin origin)
      then rp_id_of_parts (split_scheme origin)
      else none

-- `identifier`.
abbrev pub identifier : Text → Bool
identifier t =
    leb 1 (length t)
    && leb (length t) 1024
    && all (λ c. is_alpha c || is_digit c || c == 95 || c == 45) t

pub record Challenge : Type 0 where
  pub challenge : Text
  pub origin : Text
  pub rp_id : Text
  pub generation : ℤ
  pub expires_at_ms : ℕ

abbrev pub Challenges : Type 0
Challenges = Table (Text × Ceremony) Challenge

abbrev pub is_current : ℕ → Challenge → Bool
is_current now c = ltb now c.expires_at_ms

abbrev pub has_key : Option Challenge → Bool
has_key none = false
has_key (some c) = true

-- The texts are of bytes, and `is_ascii` is below 128.
abbrev pub is_binding : Text → Bool
is_binding t = leb 32 (length t) && leb (length t) 512 && all (λ c. ltb c 128) t

abbrev pub challenge_of : ℕ → Text → Text → Text → ℤ → Challenge
challenge_of now drawn origin rp_id generation = record {
  challenge = drawn;
  origin = origin;
  rp_id = rp_id;
  generation = generation;
  expires_at_ms = now + challenge_ttl_ms;
}

module _ (digest : Text → Text) (is_ipv4 : Text → Bool) where
  abbrev issue_at :
      ℕ → Text → Text × Ceremony → Text → ℤ → Text → Challenges → Challenges × Option Challenge
  issue_at now drawn key origin generation rp_id records =
      let live = retain Key-discrete (λ k c. is_current now c) records in
      if not (has_key (lookup Key-discrete key live)) && leb challenge_capacity (length live)
      then (live, none)
      else (
        insert Key-discrete key (challenge_of now drawn origin rp_id generation) live,
        some (challenge_of now drawn origin rp_id generation),
      )

  abbrev issue_for :
      ℕ
      → Text
      → Text
      → Ceremony
      → Text
      → ℤ
      → Challenges
      → Option Text
      → Challenges × Option Challenge
  issue_for now drawn binding ceremony origin generation records none = (records, none)
  issue_for now drawn binding ceremony origin generation records (some rp_id) =
      if is_binding binding
      then issue_at now drawn (digest binding, ceremony) origin generation rp_id records
      else (records, none)

  -- `Challenges::issue`.
  unfoldable pub issue :
      ℕ → Text → Text → Ceremony → Text → ℤ → Challenges → Challenges × Option Challenge
  issue now drawn binding ceremony origin generation records =
      issue_for now drawn binding ceremony origin generation records
        (rp_id_for_origin is_ipv4 origin)

  -- `Challenges::consume`.
  unfoldable pub consume : ℕ → Text → Ceremony → Challenges → Challenges × Option Challenge
  consume now binding ceremony records =
      if is_binding binding
      then (let live = retain Key-discrete (λ k c. is_current now c) records in
          (
            erase Key-discrete (digest binding, ceremony) live,
            only (is_current now) (lookup Key-discrete (digest binding, ceremony) live),
          ))
      else (records, none)
