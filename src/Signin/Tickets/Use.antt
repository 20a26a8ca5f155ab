-- ===== src/Signin/Tickets/Use.antt =====
-- A ticket is used once, by whom it was issued for.
use shimpz_admin.Prelude.{
  ℕ, ◌+◌, ◌≤◌, ◌<◌, ◌≡◌, ◌≢◌, ◌⊎◌, inl, inr, ◌∙◌, dec_lt, ◌↔◌, ite, true, false, ◌&&◌, List, Option,
  none, some, arith, Text, Text-discrete, Option-discrete, length, ltb, if◌then◌else◌,
}
use shimpz_admin.Prelude.Table.{
  lookup, insert, erase, lookup-insert, lookup-retain, erase_self, retain_absent,
}
use shimpz_admin.Signin.Tickets.{
  Purpose, Purpose-discrete, Binding, Binding-discrete, Ticket, Tickets, Issue, ticket_ttl_ms,
  expire, first_free, ticket_of, is_admitted, issue, is_token, fits, consume, revoke,
}
use shimpz_admin.Signin.Tickets.Laws.{Inv, issue-Inv, revoke-Inv}

-- A token spends its ticket once, whether it was presented for the right purpose, subject and socket
-- or not: presented again at any time, in any way, it is refused.
pub consume_once :
    (now later : ℕ) (token : Text) (purpose purpose' : Purpose) (subject subject' : Text)
    (binding binding' : Option Binding) (t : Tickets)
    → (consume later token purpose' subject' binding'
        (consume now token purpose subject binding t).0).1
      ≡ none
unfolding consume
consume_once now later token purpose purpose' subject subject' binding binding' t = ground (
  arith,
  erase_self Text-discrete token (expire now t.records),
  retain_absent Text-discrete (λ _ (ticket : Ticket). ltb later ticket.expires_at_ms) token
      (erase Text-discrete token (expire now t.records)),
)

-- A ticket that is handed over is the stored one of that token, unexpired, and issued for exactly
-- this purpose, subject and socket.
pub consume_sound :
    (now : ℕ) (token : Text) (purpose : Purpose) (subject : Text) (binding : Option Binding)
    (t : Tickets) (ticket : Ticket)
    → Inv t
    → (consume now token purpose subject binding t).1 ≡ some ticket
    → (lookup Text-discrete token t.records ≡ some ticket)
      × (now < ticket.expires_at_ms)
      × (ticket.purpose ≡ purpose)
      × (ticket.subject ≡ subject)
      × (ticket.binding ≡ binding)
unfolding consume
consume_sound now token purpose subject binding t ticket v h = ground (
  arith,
  lookup-retain Text-discrete (λ _ (k : Ticket). ltb now k.expires_at_ms) token t.records
      v.distinct,
)

issue-eq-some :
    (now : ℕ) (draws : List Text) (i : Issue) (t : Tickets) (token : Text)
    → (issue now draws i t).1 ≡ some token
    → (issue now draws i t).0.records
      ≡ insert Text-discrete token (ticket_of now i) (expire now t.records)
unfolding issue
issue-eq-some now draws i t token h = ground arith

consume_issued :
    (now later : ℕ) (draws : List Text) (i : Issue) (t : Tickets) (token : Text) (purpose : Purpose)
    (subject : Text) (binding : Option Binding)
    → Inv t
    → (issue now draws i t).1 ≡ some token
    → is_token token ≡ true
    → (consume later token purpose subject binding (issue now draws i t).0).1 ≡ (
        if ltb later (now + ticket_ttl_ms) && fits purpose subject binding (ticket_of now i)
        then some (ticket_of now i)
        else none)
unfolding consume
consume_issued now later draws i t token purpose subject binding v h wf = ground (
  arith,
  issue-eq-some now draws i t token h,
  (issue-Inv t v now draws i).distinct,
  lookup-retain Text-discrete (λ _ (k : Ticket). ltb later k.expires_at_ms) token
      (issue now draws i t).0.records (issue-Inv t v now draws i).distinct,
  lookup-insert Text-discrete token token (ticket_of now i) (expire now t.records),
)

-- What a presentation brings: the ticket as it was issued, or no ticket and a reason.
pub data Presented (now later : ℕ) (i : Issue) (purpose : Purpose) (subject : Text)
    (binding : Option Binding) (result : Option Ticket) : Type 0 where
  handed :
      result
        ≡ some (record {
          purpose = i.purpose;
          origin = i.origin;
          generation = i.generation;
          expires_at_ms = now + 180000;
          subject = i.subject;
          binding = i.binding;
        })
      → later < now + 180000
      → purpose ≡ i.purpose
      → subject ≡ i.subject
      → binding ≡ i.binding
      → Presented now later i purpose subject binding result
  refused :
      result ≡ none
      → (now + 180000 ≤ later)
        ⊎ (purpose ≢ i.purpose)
        ⊎ (subject ≢ i.subject)
        ⊎ (binding ≢ i.binding)
      → Presented now later i purpose subject binding result

-- The ticket just issued for a token is handed over for that token within its three minutes to who
-- presents the purpose, subject and socket that it was issued for, as it was issued; and to nobody else.
pub consume-issue :
    (now later : ℕ) (draws : List Text) (i : Issue) (t : Tickets) (token : Text) (purpose : Purpose)
    (subject : Text) (binding : Option Binding)
    → Inv t
    → (issue now draws i t).1 ≡ some token
    → is_token token ≡ true
    → Presented now later i purpose subject binding
        (consume later token purpose subject binding (issue now draws i t).0).1
consume-issue now later draws i t token purpose subject binding v h wf =
    let e = consume_issued now later draws i t token purpose subject binding v h wf in
    elim (dec_lt later (now + 180000)) [
      | no n ↦ refused (e ∙ ground (arith, n)) (inl (omega (arith, n)))
      | yes l ↦ elim (Purpose-discrete purpose i.purpose) [
        | no n ↦ refused (e ∙ ground (arith, n)) (inr (inl n))
        | yes p ↦ elim (Text-discrete subject i.subject) [
          | no n ↦ refused (e ∙ ground (arith, n)) (inr (inr (inl n)))
          | yes s ↦ elim (Option-discrete Binding-discrete binding i.binding) [
            | no n ↦ refused (e ∙ ground (arith, n)) (inr (inr (inr n)))
            | yes b ↦ handed (e ∙ ground (arith, l, p, s, b)) l p s b
          ]
        ]
      ]
    ]

-- Where some drawn token is free, a ticket is refused exactly when what it is for is not admitted or
-- 64 unexpired tickets are outstanding.
pub issue_refused :
    (now : ℕ) (draws : List Text) (i : Issue) (t : Tickets)
    → first_free draws (expire now t.records) ≢ none
    → ((issue now draws i t).1 ≡ none)
      ↔ ((is_admitted i ≡ false) ⊎ (64 ≤ length (expire now t.records)))
unfolding issue
issue_refused now draws i t free = (λ e. ground arith, λ e. ground arith)

-- No ticket of a revoked socket is handed over any more; those of other sockets stay.
pub consume-revoke :
    (now : ℕ) (token : Text) (purpose : Purpose) (subject : Text) (b : Binding)
    (binding : Option Binding) (t : Tickets)
    → Inv t
    → (consume now token purpose subject binding (revoke b t)).1
      ≡ ite
          (Option-discrete Binding-discrete binding (some b))
          none
          (consume now token purpose subject binding t).1
unfolding consume revoke
consume-revoke now token purpose subject b binding t v = ground (
  arith,
  lookup-retain Text-discrete (λ _ (k : Ticket). ltb now k.expires_at_ms) token (revoke b t).records
      (revoke-Inv t v b).distinct,
  lookup-retain Text-discrete (λ _ (k : Ticket). ltb now k.expires_at_ms) token t.records
      v.distinct,
  lookup-retain Text-discrete
      (λ _ (k : Ticket). ite (Option-discrete Binding-discrete k.binding (some b)) false true) token
      t.records v.distinct,
)
