-- ===== src/Signin/Audit.antt =====
-- backend/src/signin/audit/mod.rs: the journal of authentication events. The disk is the journal with
-- its two backups; whether an effect on it succeeds is an argument. JSON is a parameter: how an entry
-- is written as a line, and how a line is read.
pub mod Written
pub mod History
mod Tests
use shimpz_admin.Prelude.{
  ℕ, zero, suc, ◌+◌, ◌-◌, ◌*◌, Bool, true, false, not, ◌&&◌, ◌||◌, List, [], ◌∷◌, ◌++◌, Option,
  none, some, Text, length, get_elem?, keep, ltb, leb, ◌==◌, if◌then◌else◌,
}
use shimpz_admin.Prelude.Int.{ℤ, ltb_ℤ}
use shimpz_admin.Time.Texts.{utc}

abbrev pub max_bytes : ℕ
max_bytes = 1024 * 1024

pub data AuditEvent : Type 0 where
  setup_started setup_completed : AuditEvent
  password_rejected password_locked : AuditEvent
  totp_rejected totp_locked : AuditEvent
  passkey_rejected passkey_suspended passkey_registered : AuditEvent
  login origin_learned origin_replaced operation_confirmed : AuditEvent
  recovery_code_used recovery_code_rejected recovery_code_locked : AuditEvent
  recovery_completed recovery_codes_generated : AuditEvent
  supervisor_key_rotation_started supervisor_key_rotated supervisor_key_rotation_abandoned :
      AuditEvent
  logout host_reset space_reset : AuditEvent

abbrev pub is_sign_in : AuditEvent → Bool
is_sign_in login = true
is_sign_in setup_completed = true
is_sign_in recovery_completed = true
is_sign_in _ = false

abbrev pub is_failure : AuditEvent → Bool
is_failure password_rejected = true
is_failure password_locked = true
is_failure totp_rejected = true
is_failure totp_locked = true
is_failure passkey_rejected = true
is_failure passkey_suspended = true
is_failure recovery_code_rejected = true
is_failure recovery_code_locked = true
is_failure _ = false

pub data Outcome : Type 0 where
  ok denied : Outcome

abbrev pub is_ok : Outcome → Bool
is_ok ok = true
is_ok denied = false

-- A line of the journal, with its moment in Unix seconds.
pub record Entry : Type 0 where
  pub moment : ℤ
  pub event : AuditEvent
  pub outcome : Outcome
  pub origin : Option Text

-- A file; `is_safe` says that it is a regular file with one link, owned by Admin and closed to others.
pub record File : Type 0 where
  pub bytes : Text
  pub is_safe : Bool

pub record Disk : Type 0 where
  pub current : Option File
  pub first : Option File
  pub second : Option File

-- Which effects of an append succeed; what a failed write left of the line.
pub record Effects : Type 0 where
  pub directory_made : Bool
  pub renamed_first : Bool
  pub renamed_current : Bool
  pub directory_synced : Bool
  pub opened : Bool
  pub written : Bool
  pub left_over : Text
  pub file_synced : Bool
  pub directory_synced_again : Bool

pub record Audit : Type 0 where
  pub disk : Disk
  pub failed : Bool

-- The round of `rotate` that moves the first backup, and the round that moves the journal. The result is
-- the disk, and whether the round succeeded.
abbrev pub move_first : Effects → Disk → Option File → Disk × Bool
move_first f d none = (d, true)
move_first f d (some file) =
    if file.is_safe && f.renamed_first
    then (record d { second = some file; first = none }, true)
    else (d, false)

abbrev pub move_current : Effects → Disk → Option File → Disk × Bool
move_current f d none = (d, true)
move_current f d (some file) =
    if file.is_safe && f.renamed_current
    then (record d { first = some file; current = none }, true)
    else (d, false)

abbrev pub then_current : Effects → Disk × Bool → Disk × Bool
then_current f (d, false) = (d, false)
then_current f (d, true) = move_current f d d.current

abbrev pub then_synced : Effects → Disk × Bool → Disk × Bool
then_synced f (d, b) = (d, b && f.directory_synced)

unfoldable pub rotate : Effects → Disk → Disk × Bool
rotate f d = then_synced f (then_current f (move_first f d d.first))

abbrev pub needs_rotation : Text → Option File → Bool
needs_rotation line none = false
needs_rotation line (some file) = ltb max_bytes (length file.bytes + length line)

abbrev pub or_empty : Option File → File
or_empty none = record { bytes = []; is_safe = true }
or_empty (some file) = file

abbrev pub is_missing : Option File → Bool
is_missing none = true
is_missing (some file) = false

abbrev pub with_line : Disk → Text → Disk
with_line d line = record d {
  current = some (record (or_empty d.current) { bytes = (or_empty d.current).bytes ++ line });
}

-- From the opening of the file on.
abbrev pub write : Effects → Text → Disk → Disk × Bool
write f line d =
    if not f.opened
    then (d, false)
    else if not (or_empty d.current).is_safe
    then (d, false)
    else if not f.written
    then (with_line d f.left_over, false)
    else (
      with_line d line,
      f.file_synced && (not (is_missing d.current) || f.directory_synced_again),
    )

abbrev pub after_rotation : Effects → Text → Disk × Bool → Disk × Bool
after_rotation f line (d, false) = (d, false)
after_rotation f line (d, true) = write f line d

unfoldable pub append : Effects → Text → Disk → Disk × Bool
append f line d =
    if not f.directory_made
    then (d, false)
    else after_rotation f line (if needs_rotation line d.current then rotate f d else (d, true))

-- The journal, and whether the event is recorded, which is then announced.
unfoldable pub record_line : Effects → Text → Audit → Audit × Bool
record_line f line a =
    if a.failed
    then (a, false)
    else let (d, done) = append f line a.disk in (record { disk = d; failed = not done }, done)

pub record SignInHistory : Type 0 where
  pub previous : Option (Text × Option Text)
  pub failures_since : ℕ

abbrev pub is_past_sign_in : ℤ → Entry → Bool
is_past_sign_in signed_in_at entry =
    is_sign_in entry.event && is_ok entry.outcome && not (ltb_ℤ signed_in_at entry.moment)

-- The indices, from one on, of the entries that pass a test.
abbrev pub indices : (Entry → Bool) → ℕ → List Entry → List ℕ
indices p index [] = []
indices p index (entry ∷ entries) =
    let rest = indices p (index + 1) entries in if p entry then index ∷ rest else rest

-- `[.., previous, current]`.
abbrev pub last_two : List ℕ → Option (ℕ × ℕ)
last_two [] = none
last_two (i ∷ []) = none
last_two (i ∷ j ∷ []) = some (i, j)
last_two (i ∷ j ∷ k ∷ rest) = last_two (j ∷ k ∷ rest)

abbrev pub drop : ℕ → List Entry → List Entry
drop n [] = []
drop zero (e ∷ es) = e ∷ es
drop (suc n) (e ∷ es) = drop n es

abbrev pub take : ℕ → List Entry → List Entry
take n [] = []
take zero (e ∷ es) = []
take (suc n) (e ∷ es) = e ∷ take n es

abbrev pub seen : Option Entry → Option (Text × Option Text)
seen none = none
seen (some entry) = some (utc entry.moment, entry.origin)

abbrev pub between : List Entry → Option (ℕ × ℕ) → SignInHistory
between entries none = record { previous = none; failures_since = 0 }
between entries (some (previous, current)) = record {
  previous = seen (get_elem? entries previous);
  failures_since = length (
      keep (λ e. is_failure e.event)
        (take (current - (previous + 1)) (drop (previous + 1) entries)));
}

unfoldable pub history_of : ℤ → List Entry → SignInHistory
history_of signed_in_at entries =
    between entries (last_two (indices (is_past_sign_in signed_in_at) 0 entries))

-- `split` at the newlines, less the last piece.
unfoldable pub lines_from : Text → Text → List Text
lines_from line [] = []
lines_from line (c ∷ cs) =
    let rest = lines_from [] cs in
    let rest' = lines_from (line ++ c ∷ []) cs in if c == 10 then line ∷ rest else rest'

abbrev pub read_lines : Option File → Option (List Text)
read_lines none = some []
read_lines (some file) =
    if not file.is_safe || ltb (2 * max_bytes) (length file.bytes)
    then none
    else some (lines_from [] file.bytes)

abbrev pub join : Option (List Text) → Option (List Text) → Option (List Text)
join (some xs) (some ys) = some (xs ++ ys)
join _ _ = none

abbrev pub push_entry : Option Entry → Option (List Entry) → Option (List Entry)
push_entry (some e) (some es) = some (e ∷ es)
push_entry _ _ = none

abbrev pub all_entries : (Text → Option Entry) → List Text → Option (List Entry)
all_entries entry [] = some []
all_entries entry (line ∷ lines) = push_entry (entry line) (all_entries entry lines)

abbrev pub history_of_entries : ℤ → Option (List Entry) → Option SignInHistory
history_of_entries signed_in_at none = none
history_of_entries signed_in_at (some entries) = some (history_of signed_in_at entries)

abbrev pub history_of_lines : (Text → Option Entry) → ℤ → Option (List Text) → Option SignInHistory
history_of_lines entry signed_in_at none = none
history_of_lines entry signed_in_at (some lines) =
    history_of_entries signed_in_at (all_entries entry lines)

-- `None` is `HistoryUnavailable`; the backups are read first.
unfoldable pub sign_in_history : (Text → Option Entry) → ℤ → Disk → Option SignInHistory
sign_in_history entry signed_in_at d =
    history_of_lines entry signed_in_at
      (join (read_lines d.second) (join (read_lines d.first) (read_lines d.current)))
