-- ===== src/Session/Budget.antt =====
-- backend/src/session/budget.rs: what one session may do in a sliding minute. The monotonic clock's
-- milliseconds are an argument; they are not negative, so a difference that the code would find
-- negative is 0 here, and is below the window either way.
pub mod Queue
pub mod Window
pub mod Admitted
pub mod Renewal
use shimpz_admin.Prelude.{
  ℕ, ◌+◌, ◌-◌, Bool, true, false, List, [], ◌∷◌, ◌++◌, Option, none, some, Text, Text-discrete,
  length, ltb, leb, if◌then◌else◌,
}
use shimpz_admin.Prelude.Table.{Table, lookup, insert, retain}

abbrev pub window_ms : ℕ
window_ms = 60000

abbrev pub socket_opens : ℕ
socket_opens = 30

abbrev pub calls_limit : ℕ
calls_limit = 600

abbrev pub socket_changes : ℕ
socket_changes = 120

abbrev pub renewal_ms : ℕ
renewal_ms = 30000

pub record Budget : Type 0 where
  pub limit : ℕ
  pub events : Table Text (List ℕ)

unfoldable pub fresh : ℕ → Budget
fresh limit = record { limit = limit; events = [] }

-- `seen.back()`.
abbrev pub back : List ℕ → Option ℕ
back [] = none
back (t ∷ []) = some t
back (t ∷ u ∷ ts) = back (u ∷ ts)

-- Is the last event within the window?
abbrev pub is_recent : ℕ → Option ℕ → Bool
is_recent now none = false
is_recent now (some last) = ltb (now - last) window_ms

-- `while seen.front() … { seen.pop_front() }`.
unfoldable pub drop_old : ℕ → List ℕ → List ℕ
drop_old now [] = []
drop_old now (first ∷ seen) =
    let rest = drop_old now seen in if leb window_ms (now - first) then rest else first ∷ seen

abbrev pub or_default : Option (List ℕ) → List ℕ
or_default none = []
or_default (some seen) = seen

abbrev pub swept : ℕ → Table Text (List ℕ) → Table Text (List ℕ)
swept now = retain Text-discrete (λ _ seen. is_recent now (back seen))

-- The rest of `Budget::admit`, once the session's own queue is cut to the window.
abbrev pub spend : Budget → Table Text (List ℕ) → Text → ℕ → List ℕ → Budget × Bool
spend b events session now seen =
    if leb b.limit (length seen)
    then (record b { events = insert Text-discrete session seen events }, false)
    else (record b { events = insert Text-discrete session (seen ++ now ∷ []) events }, true)

unfoldable pub admit : ℕ → Text → Budget → Budget × Bool
admit now session b =
    let events = swept now b.events in
    spend b events session now (drop_old now (or_default (lookup Text-discrete session events)))

pub record Renewals : Type 0 where
  pub renewed : Table Text ℕ

abbrev is_held : Option ℕ → Bool
is_held none = false
is_held (some at) = true

-- `Renewals::due`.
unfoldable pub due : ℕ → Text → Renewals → Renewals × Bool
due now session r =
    let renewed = retain Text-discrete (λ _ at. ltb (now - at) renewal_ms) r.renewed in
    if is_held (lookup Text-discrete session renewed)
    then (record { renewed = renewed }, false)
    else (record { renewed = insert Text-discrete session now renewed }, true)

pub record Budgets : Type 0 where
  pub opens : Budget
  pub calls : Budget
  pub changes : Budget
  pub renewals : Renewals

pub all_fresh : Budgets
all_fresh = record {
  opens = fresh socket_opens;
  calls = fresh calls_limit;
  changes = fresh socket_changes;
  renewals = record { renewed = [] };
}
