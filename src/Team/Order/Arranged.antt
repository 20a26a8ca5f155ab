-- ===== src/Team/Order/Arranged.antt =====
-- An arrangement loses no Team and repeats none, and a forgotten Team has no position.
use shimpz_admin.Prelude.{
  ℕ, suc, ◌+◌, ◌≤◌, ◌≡◌, refl, ap, ite, true, false, not, List, [], ◌∷◌, ◌++◌, Option, arith, Text,
  Text-discrete, keep, if◌then◌else◌, Bool-cases, inl, inr,
}
use shimpz_admin.Team.Order.{
  TeamEntry, Stored, missing, order, not_valid, io_error, Disk, ok, load, save, saved_for_mutation,
  contains, except, forget, found, find, surviving, or_empty, arrange,
}

-- How often an id is named.
abbrev pub count_ids : Text → List Text → ℕ
count_ids id [] = 0
count_ids id (known ∷ ids) =
    ite (Text-discrete known id) (suc (count_ids id ids)) (count_ids id ids)

abbrev pub count : Text → List TeamEntry → ℕ
count id [] = 0
count id (team ∷ teams) =
    ite (Text-discrete team.team_id id) (suc (count id teams)) (count id teams)

count-append : (id : Text) (a b : List TeamEntry) → count id (a ++ b) ≡ count id a + count id b
count-append id [] b = omega arith
count-append id (team ∷ a) b = ground (arith, count-append id a b)

count-unsaved :
    (id : Text) (saved : List Text) (teams : List TeamEntry)
    → count id (keep (λ team. not (contains team.team_id saved)) teams)
      ≡ (if contains id saved then 0 else count id teams)
count-unsaved id saved [] = ground arith
count-unsaved id saved (team ∷ teams) = elim (Text-discrete team.team_id id) [
  | yes same ↦
      let e = ap (λ x. contains x saved) same in
      ground (arith, same, e, count-unsaved id saved teams)
  | no other ↦ ground (arith, other, count-unsaved id saved teams)
]

count-found :
    (id named : Text) (teams : List TeamEntry)
    → count id teams ≤ 1
    → count id (found (find named teams)) ≡ ite (Text-discrete named id) (count id teams) 0
count-found id named [] h = ground arith
count-found id named (team ∷ teams) h = ground (arith, h, count-found id named teams)

contains-count : (id : Text) (ids : List Text) → contains id ids ≡ true → 1 ≤ count_ids id ids
contains-count id [] h = cc
contains-count id (known ∷ ids) h = ground (arith, h, contains-count id ids)

count-surviving :
    (id : Text) (teams : List TeamEntry) (saved : List Text)
    → count id teams ≤ 1
    → count_ids id saved ≤ 1
    → count id (surviving teams saved) ≡ (if contains id saved then count id teams else 0)
count-surviving id teams [] h k = ground arith
count-surviving id teams (named ∷ saved) h k = ground (
  arith,
  h,
  k,
  count-append id (found (find named teams)) (surviving teams saved),
  count-found id named teams,
  count-surviving id teams saved,
  contains-count id saved,
)

-- Where the inventory names each Team once and the saved order each id at most once, the arranged
-- list names every Team exactly as often as the inventory: none is lost, repeated or made up.
pub count-arrange :
    (id : Text) (teams : List TeamEntry) (saved : Option (List Text))
    → count id teams ≤ 1
    → count_ids id (or_empty saved) ≤ 1
    → count id (arrange teams saved) ≡ count id teams
unfolding arrange
count-arrange id teams saved h k = ground (
  arith,
  count-append id (keep (λ team. not (contains team.team_id (or_empty saved))) teams)
      (surviving teams (or_empty saved)),
  count-unsaved id (or_empty saved) teams,
  count-surviving id teams (or_empty saved) h k,
)

pub contains-except : (id : Text) (ids : List Text) → contains id (except id ids) ≡ false
contains-except id [] = refl
contains-except id (known ∷ ids) = ground (arith, contains-except id ids)

-- The ids that a file gives a position.
abbrev pub positions : Stored → List Text
positions (order ids) = ids
positions f = []

-- After a removal of a Team's position that succeeds, the file gives the Team no position.
pub forget_lem :
    (disk : Disk) (id : Text) (f : Stored)
    → (forget disk id f).1 ≡ ok tt
    → contains id (positions (forget disk id f).0) ≡ false
unfolding forget saved_for_mutation load save
forget_lem disk id missing h = refl
forget_lem disk id io_error h = refl
forget_lem disk id (not_valid own) h = elim (Bool-cases own) [
  | inl e ↦ elim (Bool-cases disk.removes) [ inl r ↦ rw (e, r) refl | inr r ↦ rw (e, r) refl ]
  | inr e ↦ rw e refl
]
forget_lem disk id (order ids) h = elim (Bool-cases (contains id ids)) [
  | inr e ↦ rw e e
  | inl e ↦ elim (Bool-cases disk.replaces) [
    | inl r ↦ rw (e, r) (contains-except id ids)
    | inr r ↦ absurd (ground (arith, h, e, r))
  ]
]
