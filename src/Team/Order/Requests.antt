-- ===== src/Team/Order/Requests.antt =====
-- backend/src/team/order.rs: what a reorder, a creation and a deletion do with the saved order, and
-- what they answer. Team's inventory, or its failure, is an argument.
use shimpz_admin.Prelude.{
  ite, Bool, true, false, ◌&&◌, List, [], ◌∷◌, Option, none, some, Text, Text-discrete, map, ltb,
  ◌==◌, if◌then◌else◌,
}
use shimpz_admin.Team.Order.{
  TeamEntry, Stored, Disk, Answer, ok, err, load, save, saved_for_mutation, contains, except,
  forget, arrange, done,
}

-- The answers, by what they report: a failed inventory, a stale order, an unavailable file, an
-- incomplete cleanup, the arranged list, or the answer of the operation itself and whether it is a
-- success.
pub data Reply : Type 0 where
  inventory_failed stale not_saved incomplete : Reply
  listed : List TeamEntry → Reply
  operation : Bool → Reply

-- `String`'s order.
abbrev pub is_before : Text → Text → Bool
is_before [] other = true
is_before (a ∷ rest) [] = false
is_before (a ∷ rest) (b ∷ bs) =
    let later = is_before rest bs in if ltb a b then true else if a == b then later else false

abbrev pub insert_sorted : Text → List Text → List Text
insert_sorted id [] = id ∷ []
insert_sorted id (other ∷ ids) =
    let rest = insert_sorted id ids in if is_before id other then id ∷ other ∷ ids else other ∷ rest

abbrev pub sort : List Text → List Text
sort [] = []
sort (id ∷ ids) = insert_sorted id (sort ids)

abbrev pub same : List Text → List Text → Bool
same [] [] = true
same [] (b ∷ bs) = false
same (a ∷ rest) [] = false
same (a ∷ rest) (b ∷ bs) = ite (Text-discrete a b) true false && same rest bs

abbrev pub saved_reply : List TeamEntry → List Text → Stored × Answer (Unit {0}) → Stored × Reply
saved_reply teams ids (f, err e) = (f, not_saved)
saved_reply teams ids (f, ok done) = (f, listed (arrange teams (some ids)))

-- `reorder`.
unfoldable pub reorder : Disk → Option (List TeamEntry) → List Text → Stored → Stored × Reply
reorder disk none ids f = (f, inventory_failed)
reorder disk (some teams) ids f =
    if same (sort ids) (sort (map (λ team. team.team_id) teams))
    then saved_reply teams ids (save disk ids f)
    else (f, stale)

abbrev pub refusal : Stored × Answer (Unit {0}) → Stored × Option Reply
refusal (f, err e) = (f, some not_saved)
refusal (f, ok done) = (f, none)

abbrev pub names : Text → List TeamEntry → Bool
names id [] = false
names id (team ∷ teams) = ite (Text-discrete team.team_id id) true (names id teams)

abbrev pub released :
    Disk → Option (List TeamEntry) → Text → List Text → Stored → Stored × Option Reply
released disk none id saved f = (f, some inventory_failed)
released disk (some teams) id saved f =
    if names id teams then (f, none) else refusal (save disk (except id saved) f)

abbrev pub release :
    Disk
    → Option (List TeamEntry)
    → Text
    → Stored × Answer (Option (List Text))
    → Stored × Option Reply
release disk teams id (f, err e) = (f, some not_saved)
release disk teams id (f, ok none) = refusal (f, done disk.syncs)
release disk teams id (f, ok (some saved)) =
    if contains id saved then released disk teams id saved f else refusal (f, done disk.syncs)

-- `release_for_create`: no reply lets the creation go on.
unfoldable pub release_for_create :
    Disk → Option (List TeamEntry) → Text → Stored → Stored × Option Reply
release_for_create disk teams id f = release disk teams id (saved_for_mutation disk f)

-- `cleanup` of an operation's answer by an action.
abbrev pub cleaned : Reply → Stored × Answer (Unit {0}) → Stored × Reply
cleaned response (f, err e) = (f, incomplete)
cleaned response (f, ok done) = (f, response)

abbrev pub is_success : Reply → Bool
is_success (operation success) = success
is_success _ = false

unfoldable pub team_deleted : Disk → Text → Reply → Stored → Stored × Reply
team_deleted disk id response f =
    if is_success response then cleaned response (forget disk id f) else (f, response)

-- An order that cannot be used is none.
abbrev pub usable : Answer (Option (List Text)) → Option (List Text)
usable (ok saved) = saved
usable (err e) = none

-- `listing_at`: the arranged inventory.
unfoldable pub listing : Option (List TeamEntry) → Stored → Reply
listing none f = inventory_failed
listing (some teams) f = listed (arrange teams (usable (load f)))
