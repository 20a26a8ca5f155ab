-- ===== src/Session/Registry.antt =====
-- backend/src/session/registry.rs: the open sockets of each session. A socket is its identity (the
-- address that the code compares) with its session and its binding, which is all the registry reads. Sending to a socket and closing it
-- are the list of sockets that a function returns.
pub mod Laws
mod Tests
use shimpz_admin.Prelude.{
  ℕ, ite, Bool, true, false, not, List, [], ◌∷◌, ◌++◌, Option, none, some, Text, Text-discrete,
  length, keep, leb, ◌==◌, if◌then◌else◌, ◌||◌,
}
use shimpz_admin.Prelude.Table.{Table, lookup, insert, erase}

-- `frames::MAX_SOCKETS_PER_SESSION`.
abbrev pub max_sockets_per_session : ℕ
max_sockets_per_session = 8

pub record Socket : Type 0 where
  pub id : ℕ
  pub session : Text
  pub socket : Text

abbrev pub Registry : Type 0
Registry = Table Text (List Socket)

abbrev pub held_by : Option (List Socket) → List Socket
held_by none = []
held_by (some held) = held

-- `sockets.get(session)`, or nothing.
abbrev pub sockets_of : Text → Registry → List Socket
sockets_of session r = held_by (lookup Text-discrete session r)

unfoldable pub add : Socket → Registry → Registry × Bool
add s r =
    let held = sockets_of s.session r in
    if leb max_sockets_per_session (length held)
    then (r, false)
    else (insert Text-discrete s.session (held ++ s ∷ []) r, true)

abbrev pub put_back : Text → List Socket → Registry → Registry
put_back session [] r = erase Text-discrete session r
put_back session (s ∷ held) r = insert Text-discrete session (s ∷ held) r

abbrev pub is_other : Socket → Socket → Bool
is_other s known = not (known.id == s.id)

abbrev pub without : Socket → Registry → Option (List Socket) → Registry
without s r none = r
without s r (some held) = put_back s.session (keep (is_other s) held) r

unfoldable pub remove : Socket → Registry → Registry
remove s r = without s r (lookup Text-discrete s.session r)

abbrev pub any_bound : Text → List Socket → Bool
any_bound socket [] = false
any_bound socket (s ∷ held) = ite (Text-discrete s.socket socket) true (any_bound socket held)

-- `live` of a binding's session and socket.
unfoldable pub live : Text → Text → Registry → Bool
live session socket r = any_bound socket (sockets_of session r)

-- Every open socket.
unfoldable pub sockets : Registry → List Socket
sockets [] = []
sockets ((session, held) ∷ r) = held ++ sockets r

-- The sockets that are told their new deadlines.
unfoldable pub renewed : Text → Registry → List Socket
renewed session r = sockets_of session r

abbrev pub contains : Text → List Text → Bool
contains session [] = false
contains session (t ∷ ts) = ite (Text-discrete session t) true (contains session ts)

-- Every session where the code has `None`.
abbrev pub is_ended : Option (List Text) → Text → Bool
is_ended none session = true
is_ended (some ended) session = contains session ended

-- The sockets that are closed as signed out.
unfoldable pub end_sessions : Option (List Text) → Registry → List Socket
end_sessions ended [] = []
end_sessions ended ((session, held) ∷ r) =
    let rest = end_sessions ended r in if is_ended ended session then held ++ rest else rest
