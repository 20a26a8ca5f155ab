-- ===== src/Protocol/Origin.antt =====
-- protocol/team/http/src/websocket/mod.rs: the canonical form of an Origin, with the scheme, the
-- authority and the port as `urllib.parse` reads them. A text is the list of its bytes.
pub mod Canonical
mod Tests
use shimpz_admin.Prelude.{
  ℕ, ◌+◌, ◌*◌, ◌-◌, ite, Bool, true, false, not, ◌&&◌, ◌||◌, List, [], ◌∷◌, ◌++◌, Option, none,
  some, Text, Text-discrete, codes, map, length, all, ltb, leb, ◌==◌, if◌then◌else◌,
}

-- `str::split_once` and `str::rsplit_once` of one byte.
abbrev pub ahead : ℕ → Option (Text × Text) → Option (Text × Text)
ahead x none = none
ahead x (some (a, b)) = some (x ∷ a, b)

unfoldable pub split_once : ℕ → Text → Option (Text × Text)
split_once c [] = none
split_once c (x ∷ xs) = let rest = split_once c xs in if x == c then some ([], xs) else ahead x rest

abbrev last_split : ℕ → ℕ → Text → Option (Text × Text) → Option (Text × Text)
last_split c x xs (some (a, b)) = some (x ∷ a, b)
last_split c x xs none = if x == c then some ([], xs) else none

unfoldable pub rsplit_once : ℕ → Text → Option (Text × Text)
rsplit_once c [] = none
rsplit_once c (x ∷ xs) = last_split c x xs (rsplit_once c xs)

unfoldable pub strip_prefix : Text → Text → Option Text
strip_prefix [] t = some t
strip_prefix (p ∷ ps) [] = none
strip_prefix (p ∷ ps) (x ∷ xs) = let rest = strip_prefix ps xs in if p == x then rest else none

abbrev pub is_upper : ℕ → Bool
is_upper c = leb 65 c && leb c 90

abbrev pub is_alpha : ℕ → Bool
is_alpha c = is_upper c || leb 97 c && leb c 122

abbrev pub is_digit : ℕ → Bool
is_digit c = leb 48 c && leb c 57

abbrev pub lower : ℕ → ℕ
lower c = if is_upper c then c + 32 else c

-- `to_ascii_lowercase`.
abbrev pub lowercase : Text → Text
lowercase t = map lower t

abbrev pub same : Text → Text → Bool
same t u = ite (Text-discrete t u) true false

abbrev pub has : ℕ → Text → Bool
has c [] = false
has c (x ∷ xs) = x == c || has c xs

pub record Authority : Type 0 where
  pub userinfo : Option (Text × Option Text)
  pub host : Text
  pub port : Option Text

abbrev user_parts : Text → Option (Text × Text) → Text × Option Text
user_parts whole none = (whole, none)
user_parts whole (some (name, password)) = (name, some password)

abbrev pub non_empty : Text → Option Text
non_empty [] = none
non_empty (c ∷ t) = some (c ∷ t)

abbrev pub host_parts : Text → Option (Text × Text) → Text × Text
host_parts whole none = (whole, [])
host_parts whole (some parts) = parts

abbrev pub located : Option (Text × Option Text) → Text × Text → Authority
located userinfo (host, port) = record { userinfo = userinfo; host = host; port = non_empty port }

abbrev pub divided : Text → Option (Text × Text) → Authority
divided netloc (some (userinfo, hostinfo)) =
    located (some (user_parts userinfo (split_once 58 userinfo)))
      (host_parts hostinfo (split_once 58 hostinfo))
divided netloc none = located none (host_parts netloc (split_once 58 netloc))

unfoldable pub authority : Text → Authority
authority netloc = divided netloc (rsplit_once 64 netloc)

abbrev trim_zeros : Text → Text
trim_zeros [] = []
trim_zeros (c ∷ t) = let rest = trim_zeros t in if c == 48 then rest else c ∷ t

abbrev number : Text → ℕ → ℕ
number [] n = n
number (c ∷ t) n = number t (n * 10 + (c - 48))

abbrev port_number : Text → Option (Option ℕ)
port_number digits =
    if ltb 5 (length digits)
    then none
    else if ltb 65535 (number digits 0)
    then none
    else some (some (number digits 0))

-- `port`: no result is its error.
unfoldable pub port_of : Option Text → Option (Option ℕ)
port_of none = some none
port_of (some t) = if all is_digit t then port_number (trim_zeros t) else none

abbrev in_scheme : ℕ → Bool
in_scheme c = is_alpha c || is_digit c || c == 43 || c == 45 || c == 46

abbrev starts_alpha : Text → Bool
starts_alpha [] = false
starts_alpha (c ∷ t) = is_alpha c

abbrev pub scheme_parts : Text → Option (Text × Text) → Text × Text
scheme_parts url none = ([], url)
scheme_parts url (some (s, rest)) =
    if starts_alpha s && all in_scheme s then (lowercase s, rest) else ([], url)

unfoldable pub scheme : Text → Text × Text
scheme url = scheme_parts url (split_once 58 url)

abbrev pub http : Text
http = codes "http"

abbrev pub https : Text
https = codes "https"

abbrev pub is_web : Text → Bool
is_web s = same s http || same s https

-- The printable bytes, without `[`, `]`, `?` and `#`.
abbrev pub admitted_byte : ℕ → Bool
admitted_byte c = leb 33 c && leb c 126 && not (c == 91 || c == 93 || c == 63 || c == 35)

abbrev is_some {ℓ} : {A : Type ℓ} → Option A → Bool
is_some none = false
is_some (some a) = true

abbrev is_empty : Text → Bool
is_empty [] = true
is_empty (c ∷ t) = false

abbrev pub sound : Authority → Bool
sound parts =
    is_some (port_of parts.port) && not (is_empty parts.host) && not (is_some parts.userinfo)

abbrev pub assembled : Text → Option Text → Option Text
assembled s none = none
assembled s (some netloc) =
    if not (has 47 netloc) && is_web s && sound (authority netloc)
    then some (s ++ 58 ∷ 47 ∷ 47 ∷ lowercase netloc)
    else none

abbrev pub web_origin : Text × Text → Option Text
web_origin (s, rest) = assembled s (strip_prefix (codes "//") rest)

-- `canonical_origin` of a header that is present.
unfoldable pub canonical_origin : Text → Option Text
canonical_origin value = if all admitted_byte value then web_origin (scheme value) else none
