-- ===== src/Signin/Audit/Tests.antt =====
-- A journal of a few lines.
use shimpz_admin.Prelude.{
  ℕ, zero, suc, length, ◌≡◌, ◌++◌, refl, arith, true, false, [], ◌∷◌, Option, none, some, Text,
}
use shimpz_admin.Prelude.Int.{pos}
use shimpz_admin.Time.Texts.{utc}
use shimpz_admin.Signin.Audit.{
  Disk, Effects, Entry, max_bytes, rotate, Audit, File, ok, denied, login, password_rejected,
  needs_rotation, append, record_line, history_of, sign_in_history, lines_from,
}
use shimpz_admin.Signin.Audit.Written.{IsSmall, Keeps, append-contents}
use shimpz_admin.Signin.Audit.History.{record_all, history_of-between, record_line-failed}

abbrev all_well : Effects
all_well = record {
  directory_made = true;
  renamed_first = true;
  renamed_current = true;
  directory_synced = true;
  opened = true;
  written = true;
  left_over = [];
  file_synced = true;
  directory_synced_again = true;
}

abbrev file_of : Text → File
file_of bytes = record { bytes = bytes; is_safe = true }

abbrev disk_of : Text → Disk
disk_of bytes = record {
  current = some (file_of bytes);
  first = none;
  second = some (file_of (49 ∷ 10 ∷ []));
}

abbrev line : Text
line = 65 ∷ 10 ∷ []

abbrev journal : Audit
journal = record { disk = disk_of (66 ∷ 10 ∷ []); failed = false }

-- The line joins the one before it.
appended : append all_well line (disk_of (66 ∷ 10 ∷ [])) ≡ (disk_of (66 ∷ 10 ∷ 65 ∷ 10 ∷ []), true)
unfolding append
appended = refl

abbrev at_second : ℕ → Entry
at_second n = record { moment = pos n; event = login; outcome = ok; origin = some (104 ∷ []) }

abbrev refused_at : ℕ → Entry
refused_at n = record { moment = pos n; event = password_rejected; outcome = denied; origin = none }

-- A line is read as the sign-in of the second that its first byte names.
abbrev read_entry : Text → Option Entry
read_entry [] = none
read_entry (c ∷ cs) = some (at_second c)

two_lines :
    sign_in_history read_entry (pos 66) (disk_of (66 ∷ 10 ∷ []))
    ≡ some (record { previous = some (utc (pos 49), some (104 ∷ [])); failures_since = 0 })
unfolding sign_in_history history_of lines_from
two_lines = refl

-- A journal that is full, with both its backups.
unfoldable filled : ℕ → Text
filled zero = []
filled (suc n) = 66 ∷ filled n

length-filled : (n : ℕ) → length (filled n) ≡ n
unfolding filled
length-filled zero = refl
length-filled (suc n) = omega (arith, length-filled n)

abbrev full_disk : Disk
full_disk = record {
  current = some (file_of (filled max_bytes));
  first = some (file_of (50 ∷ 10 ∷ []));
  second = some (file_of (49 ∷ 10 ∷ []));
}

full_disk-rotates : needs_rotation line full_disk.current ≡ true
full_disk-rotates = rw (length-filled max_bytes) refl

full_disk-recorded : (append all_well line full_disk).1 ≡ true
unfolding append rotate
full_disk-recorded = rw full_disk-rotates refl

append-contents_example :
    Keeps line full_disk (append all_well line full_disk).0
    × IsSmall (append all_well line full_disk).0
append-contents_example =
    append-contents all_well line full_disk full_disk-recorded (omega arith) (record {
      small_current = omega (arith, length-filled max_bytes);
      small_first = omega arith;
      small_second = omega arith;
    })

history_of-between_example :
    history_of (pos 9) (
      at_second 1
      ∷ at_second 2
      ∷ (refused_at 3 ∷ refused_at 4 ∷ [] ++ at_second 9 ∷ refused_at 10 ∷ []))
    ≡ record { previous = some (utc (pos 2), some (104 ∷ [])); failures_since = 2 }
history_of-between_example =
    history_of-between (pos 9) (at_second 1 ∷ []) (refused_at 3 ∷ refused_at 4 ∷ [])
      (refused_at 10 ∷ []) (at_second 2) (at_second 9) refl refl refl refl

record_line-failed_example :
    ((record_line all_well line (
        record_all
          ((all_well, line) ∷ [])
          (record_line (record all_well { opened = false }) line journal).0)).1
      ≡ false)
    × (record_all
          ((all_well, line) ∷ [])
          (record_line (record all_well { opened = false }) line journal).0
        ≡ (record_line (record all_well { opened = false }) line journal).0)
unfolding record_line append
record_line-failed_example =
    record_line-failed (record all_well { opened = false }) all_well line line journal
      ((all_well, line) ∷ []) refl
