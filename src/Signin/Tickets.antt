-- ===== src/Signin/Tickets.antt =====
-- backend/src/signin/tickets/mod.rs: bounded one-use password tickets. The monotonic clock is an
-- argument, and so are the tokens that `random::urlsafe` draws while the loop of `issue` asks for
-- another one.
pub mod Laws
pub mod Use
use shimpz_admin.Prelude.{
  ℕ, ◌+◌, ◌*◌, ite, Bool, true, false, not, ◌&&◌, ◌||◌, List, [], ◌∷◌, ◌++◌, Option, none, some,
  Text, Text-discrete, Option-discrete, length, all, ltb, leb, ◌==◌, if◌then◌else◌,
}
use shimpz_admin.Prelude.Int.{ℤ, pos, ltb_ℤ}
use shimpz_admin.Prelude.Table.{Table, lookup, insert, erase, retain}
use mathlib.Core.List.{reverse}

abbrev pub ticket_ttl_ms : ℕ
ticket_ttl_ms = 180 * 1000

abbrev pub ticket_capacity : ℕ
ticket_capacity = 64

abbrev pub max_subject_chars : ℕ
max_subject_chars = 128

pub data Purpose : Type 0 where
  login totp_enrollment recovery_enrollment operation : Purpose

pub record Binding : Type 0 where
  pub session : Text
  pub socket : Text

pub record Ticket : Type 0 where
  pub purpose : Purpose
  pub origin : Option Text
  pub generation : ℤ
  pub expires_at_ms : ℕ
  pub subject : Text
  pub binding : Option Binding

pub record Tickets : Type 0 where
  pub records : Table Text Ticket

pub record Issue : Type 0 where
  pub purpose : Purpose
  pub origin : Option Text
  pub generation : ℤ
  pub subject : Text
  pub binding : Option Binding

unfoldable pub Purpose-discrete : Discrete Purpose
Purpose-discrete = hlevel

unfoldable pub Binding-discrete : Discrete Binding
unfolding Text-discrete
Binding-discrete = hlevel Text-discrete

unfoldable pub empty : Tickets
empty = record { records = [] }

-- `isspace` on ASCII.
abbrev pub is_space : ℕ → Bool
is_space c = leb 9 c && leb c 13 || leb 28 c && leb c 32

abbrev drop_spaces : Text → Text
drop_spaces [] = []
drop_spaces (c ∷ cs) = let rest = drop_spaces cs in if is_space c then rest else c ∷ cs

-- `trim_matches(isspace)` of an ASCII text.
abbrev pub trim : Text → Text
trim cs = reverse (drop_spaces (reverse (drop_spaces cs)))

abbrev pub is_printable : ℕ → Bool
is_printable c = leb 0x20 c && ltb c 0x7f

abbrev is_empty : Text → Bool
is_empty [] = true
is_empty (c ∷ cs) = false

abbrev equal : Text → Text → Bool
equal a b = ite (Text-discrete a b) true false

unfoldable pub subject_admitted : Purpose → Text → Bool
subject_admitted operation subject =
    not (is_empty subject)
    && leb (length subject) max_subject_chars
    && all is_printable subject
    && equal (trim subject) subject
subject_admitted _ subject = is_empty subject

abbrev pub expire : ℕ → Table Text Ticket → Table Text Ticket
expire now = retain Text-discrete (λ _ ticket. ltb now ticket.expires_at_ms)

abbrev is_free : Option Ticket → Bool
is_free none = true
is_free (some ticket) = false

-- The first drawn token that names no ticket.
abbrev pub first_free : List Text → Table Text Ticket → Option Text
first_free [] records = none
first_free (token ∷ draws) records =
    let later = first_free draws records in
    if is_free (lookup Text-discrete token records) then some token else later

abbrev pub ticket_of : ℕ → Issue → Ticket
ticket_of now i = record {
  purpose = i.purpose;
  origin = i.origin;
  generation = i.generation;
  expires_at_ms = now + ticket_ttl_ms;
  subject = i.subject;
  binding = i.binding;
}

abbrev pub hand_out : ℕ → Issue → Table Text Ticket → Option Text → Tickets × Option Text
hand_out now i records none = (record { records = records }, none)
hand_out now i records (some token) =
    (record { records = insert Text-discrete token (ticket_of now i) records }, some token)

-- May the ticket be issued at all?
abbrev pub is_admitted : Issue → Bool
is_admitted i = not (ltb_ℤ i.generation (pos 1)) && subject_admitted i.purpose i.subject

-- `Tickets::issue`; no token is its error.
unfoldable pub issue : ℕ → List Text → Issue → Tickets → Tickets × Option Text
issue now draws i t =
    if is_admitted i
    then (let records = expire now t.records in
        if leb ticket_capacity (length records)
        then (record { records = records }, none)
        else hand_out now i records (first_free draws records))
    else (t, none)

abbrev pub is_token : Text → Bool
is_token token = leb 32 (length token) && leb (length token) 64 && all (λ c. ltb c 128) token

abbrev pub fits : Purpose → Text → Option Binding → Ticket → Bool
fits purpose subject binding ticket =
    ite (Purpose-discrete ticket.purpose purpose) true false
    && equal ticket.subject subject
    && ite (Option-discrete Binding-discrete ticket.binding binding) true false

abbrev pub present : Purpose → Text → Option Binding → Option Ticket → Option Ticket
present purpose subject binding none = none
present purpose subject binding (some ticket) =
    if fits purpose subject binding ticket then some ticket else none

-- `Tickets::consume`; no ticket is its error.
unfoldable pub consume :
    ℕ → Text → Purpose → Text → Option Binding → Tickets → Tickets × Option Ticket
consume now token purpose subject binding t =
    if is_token token
    then (let records = expire now t.records in
        (
          record { records = erase Text-discrete token records },
          present purpose subject binding (lookup Text-discrete token records),
        ))
    else (t, none)

unfoldable pub revoke : Binding → Tickets → Tickets
revoke binding t = record {
  records =
      retain Text-discrete
        (λ _ ticket.
          ite (Option-discrete Binding-discrete ticket.binding (some binding)) false true)
        t.records;
}

unfoldable pub clear : Tickets → Tickets
clear t = record { records = [] }
