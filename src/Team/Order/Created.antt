-- ===== src/Team/Order/Created.antt =====
-- A Team that is created inherits no position.
use shimpz_admin.Prelude.{◌≡◌, refl, false, List, none, some, arith, Text, Bool-cases, inl, inr}
use shimpz_admin.Team.Order.{
  TeamEntry, Stored, missing, order, not_valid, io_error, Disk, load, save, saved_for_mutation,
  contains,
}
use shimpz_admin.Team.Order.Arranged.{positions, contains-except}
use shimpz_admin.Team.Order.Requests.{names, release_for_create}

-- Where a creation may go on and Team names no such Team, the file gives the new id no position.
pub release_lem :
    (disk : Disk) (teams : List TeamEntry) (id : Text) (f : Stored)
    → names id teams ≡ false
    → (release_for_create disk (some teams) id f).1 ≡ none
    → contains id (positions (release_for_create disk (some teams) id f).0) ≡ false
unfolding release_for_create saved_for_mutation load save
release_lem disk teams id missing n h = elim (Bool-cases disk.syncs) [
  | inl s ↦ rw s refl
  | inr s ↦ rw s refl
]
release_lem disk teams id io_error n h = refl
release_lem disk teams id (not_valid own) n h = elim (Bool-cases own) [
  | inr e ↦ rw e refl
  | inl e ↦ elim (Bool-cases disk.removes) [
    | inr r ↦ rw (e, r) refl
    | inl r ↦ elim (Bool-cases disk.syncs) [ inl s ↦ rw (e, r, s) refl | inr s ↦ rw (e, r, s) refl ]
  ]
]
release_lem disk teams id (order ids) n h = elim (Bool-cases (contains id ids)) [
  | inr e ↦ elim (Bool-cases disk.syncs) [ inl s ↦ rw (e, s) e | inr s ↦ rw (e, s) e ]
  | inl e ↦ elim (Bool-cases disk.replaces) [
    | inl r ↦ rw (e, n, r) (contains-except id ids)
    | inr r ↦ absurd (ground (arith, h, e, n, r))
  ]
]
