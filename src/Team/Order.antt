-- ===== src/Team/Order.antt =====
-- backend/src/team/order.rs: the Supervisor's saved order of the Teams. The file system is outside the
-- repository: what reading the file finds is a state, and whether a write, a removal or a directory
-- sync succeeds is an argument. Team's inventory is an argument as well.
pub mod Arranged
pub mod Requests
pub mod Created
pub mod Cleared
mod Tests
use shimpz_admin.Prelude.{
  ℕ, ite, Bool, true, false, not, ◌||◌, List, [], ◌∷◌, ◌++◌, Option, none, some, Text,
  Text-discrete, keep, if◌then◌else◌,
}

pub record TeamEntry : Type 0 where
  pub team_id : Text
  pub team_name : Text

pub data OrderError : Type 0 where
  unavailable invalid : OrderError

-- What reading `team-order.json` finds: no file, a valid order, one that is not valid (and whether
-- the file is Admin's own regular file), or an input-output error.
pub data Stored : Type 0 where
  missing : Stored
  order : List Text → Stored
  not_valid : Bool → Stored
  io_error : Stored

-- Which effects on the file succeed.
pub record Disk : Type 0 where
  pub replaces : Bool
  pub removes : Bool
  pub syncs : Bool

-- `Result<T, OrderError>`.
pub data Answer (A : Type 0) : Type 0 where
  ok : A → Answer A
  err : OrderError → Answer A

unfoldable pub load : Stored → Answer (Option (List Text))
load missing = ok none
load (order ids) = ok (some ids)
load (not_valid own) = err invalid
load io_error = err unavailable

abbrev pub done : Bool → Answer (Unit {0})
done true = ok tt
done false = err unavailable

unfoldable pub save : Disk → List Text → Stored → Stored × Answer (Unit {0})
save disk ids f = if disk.replaces then (order ids, ok tt) else (f, err unavailable)

-- `unlink_owned` of a file that is not valid.
abbrev pub unlink_owned : Disk → Bool → Stored → Stored × Answer (Option (List Text))
unlink_owned disk true f = if disk.removes then (missing, ok none) else (f, err unavailable)
unlink_owned disk false f = (f, err unavailable)

unfoldable pub saved_for_mutation : Disk → Stored → Stored × Answer (Option (List Text))
saved_for_mutation disk (not_valid own) = unlink_owned disk own (not_valid own)
saved_for_mutation disk f = (f, load f)

abbrev pub contains : Text → List Text → Bool
contains id [] = false
contains id (known ∷ ids) = ite (Text-discrete known id) true (contains id ids)

abbrev pub except : Text → List Text → List Text
except id = keep (λ item. ite (Text-discrete item id) false true)

abbrev pub drop_position :
    Disk → Text → Stored × Answer (Option (List Text)) → Stored × Answer (Unit {0})
drop_position disk id (f, err e) = (f, err e)
drop_position disk id (f, ok none) = (f, done disk.syncs)
drop_position disk id (f, ok (some saved)) =
    if contains id saved then save disk (except id saved) f else (f, done disk.syncs)

unfoldable pub forget : Disk → Text → Stored → Stored × Answer (Unit {0})
forget disk id f = drop_position disk id (saved_for_mutation disk f)

abbrev pub found : Option TeamEntry → List TeamEntry
found none = []
found (some team) = team ∷ []

-- `teams.iter().find(…)`.
abbrev pub find : Text → List TeamEntry → Option TeamEntry
find id [] = none
find id (team ∷ teams) = ite (Text-discrete team.team_id id) (some team) (find id teams)

abbrev pub surviving : List TeamEntry → List Text → List TeamEntry
surviving teams [] = []
surviving teams (id ∷ saved) = found (find id teams) ++ surviving teams saved

abbrev pub or_empty : Option (List Text) → List Text
or_empty none = []
or_empty (some saved) = saved

unfoldable pub arrange : List TeamEntry → Option (List Text) → List TeamEntry
arrange teams saved =
    keep (λ team. not (contains team.team_id (or_empty saved))) teams
    ++ surviving teams (or_empty saved)
