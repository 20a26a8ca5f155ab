-- ===== src/Session/Registry/Tests.antt =====
-- The registry of sockets at work.
use shimpz_admin.Prelude.{◌≡◌, refl, false, [], ◌∷◌, some, codes, Text-discrete, ℕ_discrete}
use shimpz_admin.Prelude.Table.{lookup, insert, erase}
use shimpz_admin.Session.Registry.{
  Socket, Registry, add, remove, live, sockets, end_sessions, renewed,
}
use shimpz_admin.Session.Registry.Laws.{opens, run}

registry : Unit {0}
unfolding lookup insert erase add remove live sockets end_sessions renewed Text-discrete ℕ_discrete
registry = tt

abbrev tab_a : Socket
tab_a = record { id = 1; session = codes "a"; socket = codes "x" }

abbrev tab_b : Socket
tab_b = record { id = 2; session = codes "b"; socket = codes "y" }

abbrev tab_c : Socket
tab_c = record { id = 3; session = codes "a"; socket = codes "z" }

abbrev three : Registry
three = run (opens tab_a ∷ opens tab_b ∷ opens tab_c ∷ []) []

-- Signing out of one session closes its two tabs.
closes_two : end_sessions (some (codes "a" ∷ [])) three ≡ tab_a ∷ tab_c ∷ []
unfolding registry
closes_two = refl

live_until_closed : live (codes "a") (codes "x") (remove tab_a three) ≡ false
unfolding registry
live_until_closed = refl
