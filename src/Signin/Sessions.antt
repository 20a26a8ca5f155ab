-- ===== src/Signin/Sessions.antt =====
-- backend/src/signin/sessions.rs: the tracked sessions. The monotonic clock is an argument; the SHA-256
-- digest, which the code takes from a library, is the parameter `digest`. What the listeners hear is
-- the second result of a function.
pub mod Eviction
pub mod Laws
pub mod Activity
use shimpz_admin.Prelude.{
  ℕ, zero, suc, ◌+◌, ◌-◌, ◌*◌, ite, Bool, true, false, not, ◌&&◌, ◌||◌, List, [], ◌∷◌, ◌++◌, Option,
  none, some, Text, Text-discrete, length, ltb, leb, ◌==◌, if◌then◌else◌,
}
use shimpz_admin.Prelude.Table.{Table, lookup, insert, erase}

abbrev pub idle_ms : ℕ
idle_ms = 3600 * 1000

abbrev pub max_tracked : ℕ
max_tracked = 64

-- When a session was last active, and its place in the order of registration.
abbrev pub Seen : Type 0
Seen = ℕ × ℕ

pub record Sessions : Type 0 where
  pub idle : ℕ
  pub capacity : ℕ
  pub last_seen : Table Text Seen
  pub order : ℕ

unfoldable pub new : Sessions
new = record { idle = idle_ms; capacity = max_tracked; last_seen = []; order = 0 }

-- What the listeners hear: nothing, the sessions that ended, or that every session did.
pub data Ended : Type 0 where
  nothing : Ended
  these : List Text → Ended
  every : Ended

-- `Sessions::ended` of a set of keys.
abbrev pub ended : List Text → Ended
ended [] = nothing
ended (k ∷ ks) = these (k ∷ ks)

abbrev pub is_idle : ℕ → ℕ → Seen → Bool
is_idle idle now (seen, order) = leb idle (now - seen)

unfoldable pub idle_keys : ℕ → ℕ → Table Text Seen → List Text
idle_keys idle now [] = []
idle_keys idle now ((k, s) ∷ m) =
    let rest = idle_keys idle now m in if is_idle idle now s then k ∷ rest else rest

unfoldable pub erase_all : List Text → Table Text Seen → Table Text Seen
erase_all [] m = m
erase_all (k ∷ ks) m = erase_all ks (erase Text-discrete k m)

-- The order of pairs.
abbrev pub before : Seen → Seen → Bool
before (seen, order) (seen', order') = ltb seen seen' || seen == seen' && ltb order order'

abbrev pub older : Text × Seen → Option (Text × Seen) → Text × Seen
older e none = e
older (k, s) (some (k', s')) = if before s' s then (k', s') else (k, s)

-- `min_by_key`: the first least entry.
unfoldable pub oldest : Table Text Seen → Option (Text × Seen)
oldest [] = none
oldest (e ∷ m) = some (older e (oldest m))

-- The eviction loop, with the keys that ended so far. Each round removes an entry, so the number of
-- entries is fuel enough.
unfoldable pub evict : ℕ → ℕ → Table Text Seen → List Text → Table Text Seen × List Text
evict zero capacity m ks = (m, ks)
evict (suc fuel) capacity m ks =
    if leb capacity (length m)
    then elim (oldest m) [
      | none ↦ (m, ks)
      | some (k, s) ↦ evict fuel capacity (erase Text-discrete k m) (ks ++ k ∷ [])
    ]
    else (m, ks)

module _ (digest : Text → Text) where
  unfoldable pub register : ℕ → Text → Sessions → Sessions × Ended
  register now token s =
      let idle = idle_keys s.idle now s.last_seen in
      let kept = erase_all idle s.last_seen in
      let (m, ks) = evict (length kept) s.capacity kept idle in
      (
        record s {
          last_seen = insert Text-discrete (digest token) (now, s.order + 1) m;
          order = s.order + 1;
        },
        ended ks,
      )

  abbrev touch : ℕ → Text → Bool → Sessions → Option Seen → Sessions × Ended × Bool
  touch now key activity s none = (s, nothing, false)
  touch now key activity s (some (seen, order)) =
      if is_idle s.idle now (seen, order)
      then (record s { last_seen = erase Text-discrete key s.last_seen }, these (key ∷ []), false)
      else if activity
      then (
        record s { last_seen = insert Text-discrete key (now, order) s.last_seen },
        nothing,
        true,
      )
      else (s, nothing, true)

  -- Its last result is whether the session is current.
  unfoldable pub current : ℕ → Text → Bool → Sessions → Sessions × Ended × Bool
  current now token activity s =
      touch now (digest token) activity s (lookup Text-discrete (digest token) s.last_seen)

  abbrev remaining : ℕ → ℕ → Option Seen → Option ℕ
  remaining idle now none = none
  remaining idle now (some (seen, order)) = some (seen + idle - now)

  unfoldable pub idle_remaining_ms : ℕ → Text → Sessions → Option ℕ
  idle_remaining_ms now token s =
      remaining s.idle now (lookup Text-discrete (digest token) s.last_seen)

unfoldable pub end_all : Sessions → Sessions × Ended
end_all s = (record s { last_seen = [] }, every)
