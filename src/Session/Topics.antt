-- ===== src/Session/Topics.antt =====
-- backend/src/session/topics.rs: the invalidation topics. The topic grammar is a regular expression of
-- another library: it is the parameter `is_topic`. A listener is the number of its callback; what the
-- listeners hear is the list that `changed` returns.
pub mod Laws
mod Tests
use shimpz_admin.Prelude.{
  ℕ, ◌+◌, ◌%◌, ◌^◌, ℕ_discrete, Bool, List, [], ◌∷◌, ◌++◌, Option, none, some, Text, Text-discrete,
  codes, if◌then◌else◌,
}
use shimpz_admin.Prelude.Table.{Table, lookup, insert, erase}

-- The revisions and the listeners' numbers are 64-bit.
pub record Topics : Type 0 where
  pub revisions : Table Text ℕ
  pub listeners : Table ℕ ℕ
  pub next : ℕ

unfoldable pub new : Topics
new = record { revisions = []; listeners = []; next = 0 }

abbrev or_zero : Option ℕ → ℕ
or_zero none = 0
or_zero (some revision) = revision

unfoldable pub revision : Text → Topics → ℕ
revision topic t = or_zero (lookup Text-discrete topic t.revisions)

abbrev pub advanced : Text → Topics → ℕ
advanced topic t = (revision topic t + 1) % 2 ^ 64

-- Who hears which revision of which topic.
abbrev pub Heard : Type 0
Heard = List (ℕ × Text × ℕ)

abbrev pub tell_all : Text → ℕ → Table ℕ ℕ → Heard
tell_all topic current [] = []
tell_all topic current ((id, listener) ∷ rest) =
    (listener, topic, current) ∷ tell_all topic current rest

abbrev pub raised : Text → Topics → Topics
raised topic t = record t { revisions = insert Text-discrete topic (advanced topic t) t.revisions }

module _ (is_topic : Text → Bool) where
  -- `changed`: the new state, its answer and what is heard.
  unfoldable pub changed : Text → Topics → Topics × ℕ × Heard
  changed topic t =
      if is_topic topic
      then (raised topic t, advanced topic t, tell_all topic (advanced topic t) t.listeners)
      else (t, 0, [])

  -- `team_changed`: the new state and what is heard.
  unfoldable pub team_changed : Text → List Text → Topics → Topics × Heard
  team_changed team [] t = (t, [])
  team_changed team (name ∷ names) t =
      let (t', revision, heard) = changed (codes "team/" ++ team ++ codes "/" ++ name) t in
      let (t'', later) = team_changed team names t' in (t'', heard ++ later)

-- `listen`: the new state and the id that forgets the listener.
unfoldable pub listen : ℕ → Topics → Topics × ℕ
listen listener t =
    let id = (t.next + 1) % 2 ^ 64 in
    (record t { next = id; listeners = insert ℕ_discrete id listener t.listeners }, id)

unfoldable pub forget : ℕ → Topics → Topics
forget id t = record t { listeners = erase ℕ_discrete id t.listeners }
