-- ===== src/Team/Order/Tests.antt =====
-- The Team order at work.
use shimpz_admin.Prelude.{
  ◌≡◌, refl, true, false, List, [], ◌∷◌, none, some, arith, Text, codes, Text-discrete, ℕ_discrete,
}
use shimpz_admin.Team.Order.{
  TeamEntry, missing, order, not_valid, Disk, ok, load, save, saved_for_mutation, forget, or_empty,
  arrange,
}
use shimpz_admin.Team.Order.Requests.{names, reorder, release_for_create, stale}
use shimpz_admin.Team.Order.Arranged.{count, count_ids, count-arrange}

teams_order : Unit {0}
unfolding reorder release_for_create load save saved_for_mutation forget arrange Text-discrete
    ℕ_discrete
teams_order = tt

abbrev entry : Text → TeamEntry
entry id = record { team_id = id; team_name = id }

abbrev a : Text
a = codes "a"

abbrev b : Text
b = codes "b"

abbrev c : Text
c = codes "c"

abbrev inventory : List TeamEntry
inventory = entry c ∷ entry b ∷ entry a ∷ []

-- The new Team leads, and the saved ones that are left follow in saved order.
new_one_leads : arrange inventory (some (a ∷ codes "d" ∷ b ∷ [])) ≡ entry c ∷ entry a ∷ entry b ∷ []
unfolding teams_order
new_one_leads = refl

one_team : count a inventory ≡ 1
unfolding teams_order
one_team = refl

one_position : count_ids a (or_empty (some (a ∷ b ∷ []))) ≡ 1
unfolding teams_order
one_position = refl

count-arrange_example : count a (arrange inventory (some (a ∷ b ∷ []))) ≡ count a inventory
count-arrange_example =
    count-arrange a inventory (some (a ∷ b ∷ [])) (omega (arith, one_team))
      (omega (arith, one_position))

abbrev healthy : Disk
healthy = record { replaces = true; removes = true; syncs = true }

forgets : (forget healthy a (order (b ∷ a ∷ []))).1 ≡ ok tt
unfolding teams_order
forgets = refl

clears_invalid : (forget healthy a (not_valid true)).0 ≡ missing
unfolding teams_order
clears_invalid = refl

lets_create :
    (release_for_create healthy (some inventory) (codes "d") (order (codes "d" ∷ a ∷ []))).1 ≡ none
unfolding teams_order
lets_create = refl

unnamed : names (codes "d") inventory ≡ false
unfolding teams_order
unnamed = refl

-- An order of other Teams than the current ones is not saved.
refuses_stale : reorder healthy (some inventory) (a ∷ b ∷ []) missing ≡ (missing, stale)
unfolding teams_order
refuses_stale = refl

saves_permutation :
    (reorder healthy (some inventory) (b ∷ a ∷ c ∷ []) missing).0 ≡ order (b ∷ a ∷ c ∷ [])
unfolding teams_order
saves_permutation = refl
