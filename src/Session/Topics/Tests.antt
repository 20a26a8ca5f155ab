-- ===== src/Session/Topics/Tests.antt =====
-- The topics at work.
use shimpz_admin.Prelude.{
  ◌≡◌, refl, Bool, [], ◌∷◌, Text, codes, Text-discrete, ℕ_discrete, leb, length,
}
use shimpz_admin.Prelude.Table.{lookup, insert}
use shimpz_admin.Session.Topics.{new, revision, changed, team_changed, listen, forget}
use shimpz_admin.Session.Topics.Laws.{changes, count}

topics : Unit {0}
unfolding lookup insert revision changed team_changed listen forget new changes Text-discrete
    ℕ_discrete
topics = tt

abbrev history : Text
history = codes "h"

abbrev routines : Text
routines = codes "i"

-- A grammar of one-letter names.
abbrev is_letter : Text → Bool
is_letter t = leb (length t) 1

twice : count history (history ∷ routines ∷ history ∷ []) ≡ 2
unfolding topics
twice = refl

-- Each listener hears a change once, with the new revision.
heard_once : (changed is_letter history (listen 7 new).0).2 ≡ (7, history, 1) ∷ []
unfolding topics
heard_once = refl
