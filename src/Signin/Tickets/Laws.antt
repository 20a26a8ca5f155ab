-- ===== src/Signin/Tickets/Laws.antt =====
-- The bound on outstanding tickets, and which of them a token can still spend.
use shimpz_admin.Prelude.{
  ℕ, ◌≤◌, ◌<◌, inl, inr, ite, true, false, List, Option, none, some, arith, Text, Text-discrete,
  Option-discrete, length, ltb, leb, Bool-cases,
}
use shimpz_admin.Prelude.Table.{
  Table, IsDistinct, insert-IsDistinct, erase-IsDistinct, retain-IsDistinct, length-insert-le,
  length-erase-le, length-retain-le,
}
use shimpz_admin.Signin.Tickets.{
  Purpose, Binding, Binding-discrete, Ticket, Tickets, Issue, ticket_capacity, expire, first_free,
  ticket_of, hand_out, is_admitted, issue, is_token, consume, revoke, clear,
}

pub record Inv (t : Tickets) : Type 0 where
  pub distinct : IsDistinct Text-discrete t.records
  pub bounded : length t.records ≤ 64

hand_out-Inv :
    (now : ℕ) (i : Issue) (records : Table Text Ticket) (token : Option Text)
    → IsDistinct Text-discrete records
    → length records < 64
    → Inv (hand_out now i records token).0
hand_out-Inv now i records none d h = record { distinct = d; bounded = omega arith }
hand_out-Inv now i records (some token) d h = record {
  distinct = insert-IsDistinct Text-discrete token (ticket_of now i) records d;
  bounded = omega (arith, length-insert-le Text-discrete token (ticket_of now i) records);
}

module _ (t : Tickets) (v : Inv t) where
  expire-Inv : (now : ℕ) → Inv (record { records = expire now t.records })
  expire-Inv now = record {
    distinct = retain-IsDistinct Text-discrete _ _ v.distinct;
    bounded = omega (
      arith,
      v.bounded,
      length-retain-le Text-discrete (λ _ ticket. ltb now ticket.expires_at_ms) t.records,
    );
  }

  pub issue-Inv : (now : ℕ) (draws : List Text) (i : Issue) → Inv (issue now draws i t).0
  unfolding issue
  issue-Inv now draws i = elim (Bool-cases (is_admitted i)) [
    | inr e ↦ rw (e, issue) v
    | inl e ↦ elim (Bool-cases (leb ticket_capacity (length (expire now t.records)))) [
      | inl full ↦ rw (e, full, issue) (expire-Inv now)
      | inr free ↦
          rw (e, free, issue)
            (hand_out-Inv now i (expire now t.records) (first_free draws (expire now t.records))
              (expire-Inv now).distinct (ground arith))
    ]
  ]

  pub consume-Inv :
      (now : ℕ) (token : Text) (purpose : Purpose) (subject : Text) (binding : Option Binding)
      → Inv (consume now token purpose subject binding t).0
  unfolding consume
  consume-Inv now token purpose subject binding = elim (Bool-cases (is_token token)) [
    | inl e ↦
        rw (e, consume)
          (record {
            distinct =
                erase-IsDistinct Text-discrete token _
                  (retain-IsDistinct Text-discrete _ _ v.distinct);
            bounded = omega (
              arith,
              v.bounded,
              length-retain-le Text-discrete (λ _ ticket. ltb now ticket.expires_at_ms) t.records,
              length-erase-le Text-discrete token (expire now t.records),
            );
          })
    | inr e ↦ rw (e, consume) v
  ]

  pub revoke-Inv : (b : Binding) → Inv (revoke b t)
  unfolding revoke
  revoke-Inv b = record {
    distinct = retain-IsDistinct Text-discrete _ _ v.distinct;
    bounded = omega (
      arith,
      v.bounded,
      length-retain-le Text-discrete
          (λ _ (ticket : Ticket).
            ite (Option-discrete Binding-discrete ticket.binding (some b)) false true)
          t.records,
    );
  }

  pub clear-Inv : Inv (clear t)
  unfolding clear
  clear-Inv = record { distinct = tt; bounded = omega arith }
