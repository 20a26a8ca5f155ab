-- ===== src/Session/Budget/Window.antt =====
-- Budgets against the log of what they admitted.
use shimpz_admin.Prelude.{
  ℕ, ◌≤◌, ◌≡◌, refl, ◌∙◌, ◌⊎◌, inl, inr, Bool, true, false, List, [], ◌∷◌, ◌++◌, arith, ite, Text,
  Text-discrete, length, ltb, leb, Bool-cases,
}
use shimpz_admin.Prelude.Table.{
  Table, lookup, insert, IsDistinct, lookup-insert, lookup-retain, insert-IsDistinct,
  retain-IsDistinct,
}
use shimpz_admin.Session.Budget.{Budget, fresh, back, is_recent, drop_old, or_default, swept, admit}
use shimpz_admin.Session.Budget.Queue.{
  IsBetween, IsBetween-later, IsBetween-append, drop_old-IsBetween, drop_old-drop_old,
  drop_old-append_eq, drop_old-not-recent, drop_old-recent, recent,
}

abbrev pub Log : Type 0
Log = List (ℕ × Text)

-- The times of one session's events in a log.
abbrev pub times : Text → Log → List ℕ
times k [] = []
times k ((t, j) ∷ log) = let rest = times k log in ite (Text-discrete j k) (t ∷ rest) rest

-- A budget with the log of the events that it admitted, oldest first.
pub record Audited : Type 0 where
  pub budget : Budget
  pub log : Log

abbrev pub write : Audited → ℕ → Text → Budget × Bool → Audited
write a now k (b, true) = record { budget = b; log = a.log ++ (now, k) ∷ [] }
write a now k (b, false) = record { budget = b; log = a.log }

-- Requests at times that never go back; the log grows by those that `admit` lets through.
unfoldable pub serve : Audited → Log → Audited
serve a [] = a
serve a ((now, k) ∷ calls) = serve (write a now k (admit now k a.budget)) calls

abbrev pub IsOrdered : ℕ → Log → Type 0
IsOrdered last [] = Unit {0}
IsOrdered last ((now, k) ∷ calls) = (last ≤ now) × IsOrdered now calls

abbrev queue : Text → Budget → List ℕ
queue k b = or_default (lookup Text-discrete k b.events)

-- The stored queues and the log agree on every minute from now on.
pub record IsFaithful (last : ℕ) (a : Audited) : Type 0 where
  pub distinct : IsDistinct Text-discrete a.budget.events
  pub ordered : (k : Text) → IsBetween 0 last (queue k a.budget)
  pub agrees :
      (k : Text) (now : ℕ)
      → last ≤ now
      → drop_old now (queue k a.budget) ≡ drop_old now (times k a.log)
  pub in_order : (k : Text) → IsBetween 0 last (times k a.log)

-- Sweeping keeps a queue, or forgets one that holds nothing of the last minute.
abbrev kept : ℕ → Budget → Text → List ℕ
kept now b k = or_default (lookup Text-discrete k (swept now b.events))

module _ (now : ℕ) (b : Budget) (distinct : IsDistinct Text-discrete b.events) where
  kept-cases :
      (k : Text)
      → (kept now b k ≡ queue k b)
        ⊎ ((kept now b k ≡ []) × (is_recent now (back (queue k b)) ≡ false))
  kept-cases k =
      ground (
        arith,
        lookup-retain Text-discrete (λ _ seen. is_recent now (back seen)) k b.events distinct,
      )

pub times-append :
    (k j : Text) (t : ℕ) (log : Log)
    → times k (log ++ (t, j) ∷ []) ≡ ite (Text-discrete j k) (times k log ++ t ∷ []) (times k log)
times-append k j t [] = ground arith
times-append k j t ((u, i) ∷ log) = ground (arith, times-append k j t log)

module _ (now : ℕ) (j : Text) (b : Budget) where
  admit_full :
      leb b.limit (length (drop_old now (kept now b j))) ≡ true
      → admit now j b ≡ (
        record b {
          events = insert Text-discrete j (drop_old now (kept now b j)) (swept now b.events);
        },
        false,
      )
  unfolding admit
  admit_full e = ground arith

  admit_free :
      leb b.limit (length (drop_old now (kept now b j))) ≡ false
      → admit now j b ≡ (
        record b {
          events =
              insert Text-discrete j (drop_old now (kept now b j) ++ now ∷ []) (swept now b.events);
        },
        true,
      )
  unfolding admit
  admit_free e = ground arith

module _ (last now : ℕ) (a : Audited) (later : last ≤ now) (v : IsFaithful last a) where
  kept-IsBetween : (k : Text) → IsBetween 0 now (kept now a.budget k)
  kept-IsBetween k = ground (
    arith,
    kept-cases now a.budget v.distinct k,
    IsBetween-later 0 last now (queue k a.budget) later (v.ordered k),
  )

  kept_agrees :
      (k : Text) (then' : ℕ)
      → now ≤ then'
      → drop_old then' (kept now a.budget k) ≡ drop_old then' (times k a.log)
  unfolding drop_old
  kept_agrees k then' h = elim (kept-cases now a.budget v.distinct k) [
    | inl e ↦ rw e (v.agrees k then' (omega arith))
    | inr (e, old) ↦ rw e (
        cc (
          drop_old-not-recent now then' 0 last (queue k a.budget) h (v.ordered k) old,
          v.agrees k then' (omega arith),
        ))
  ]

  -- What `admit` compares with the limit is the number of the session's events of the last minute.
  pub seen-recent : (k : Text) → drop_old now (kept now a.budget k) ≡ recent now (times k a.log)
  seen-recent k =
      cc
        (kept_agrees k now (omega arith), drop_old-recent now 0 last (times k a.log) (v.in_order k))

  refuse-IsFaithful :
      (j : Text)
      → IsFaithful now (record a {
        budget = record a.budget {
          events =
              insert Text-discrete j
                (drop_old now (kept now a.budget j))
                (swept now a.budget.events);
        };
      })
  refuse-IsFaithful j = record {
    distinct =
        insert-IsDistinct Text-discrete j _ _ (retain-IsDistinct Text-discrete _ _ v.distinct);
    ordered = λ k. ground (
      arith,
      lookup-insert Text-discrete k j seen swept_events,
      kept-IsBetween k,
      drop_old-IsBetween now 0 now (kept now a.budget k) (kept-IsBetween k),
    );
    agrees = λ k then' h. ground (
      arith,
      lookup-insert Text-discrete k j seen swept_events,
      kept_agrees k then' h,
      drop_old-drop_old now then' (kept now a.budget k) h,
    );
    in_order = λ k. IsBetween-later 0 last now (times k a.log) later (v.in_order k);
  }
    where
      swept_events : Table Text (List ℕ)
      swept_events = swept now a.budget.events

      seen : List ℕ
      seen = drop_old now (kept now a.budget j)

  admit-IsFaithful :
      (j : Text)
      → IsFaithful now (record {
        budget = record a.budget {
          events =
              insert Text-discrete j
                (drop_old now (kept now a.budget j) ++ now ∷ [])
                (swept now a.budget.events);
        };
        log = a.log ++ (now, j) ∷ [];
      })
  admit-IsFaithful j = record {
    distinct =
        insert-IsDistinct Text-discrete j _ _ (retain-IsDistinct Text-discrete _ _ v.distinct);
    ordered = λ k. ground (
      arith,
      lookup-insert Text-discrete k j (seen ++ now ∷ []) swept_events,
      kept-IsBetween k,
      IsBetween-append 0 now seen (drop_old-IsBetween now 0 now _ (kept-IsBetween j)),
    );
    agrees = λ k then' h. ground (
      arith,
      lookup-insert Text-discrete k j (seen ++ now ∷ []) swept_events,
      times-append k j now a.log,
      kept_agrees k then' h,
      drop_old-append_eq then' seen (times k a.log) (now ∷ []),
      drop_old-drop_old now then' (kept now a.budget k) h,
    );
    in_order = λ k. ground (
      arith,
      times-append k j now a.log,
      IsBetween-append 0 now (times k a.log) (past k),
      past k,
    );
  }
    where
      swept_events : Table Text (List ℕ)
      swept_events = swept now a.budget.events

      seen : List ℕ
      seen = drop_old now (kept now a.budget j)

      past : (k : Text) → IsBetween 0 now (times k a.log)
      past k = IsBetween-later 0 last now (times k a.log) later (v.in_order k)

  pub write-IsFaithful : (j : Text) → IsFaithful now (write a now j (admit now j a.budget))
  write-IsFaithful j =
      elim (Bool-cases (leb a.budget.limit (length (drop_old now (kept now a.budget j))))) [
        | inl e ↦ rw (admit_full now j a.budget e) (refuse-IsFaithful j)
        | inr e ↦ rw (admit_free now j a.budget e) (admit-IsFaithful j)
      ]

  -- The answer of `admit`, against the log.
  pub admit-recent :
      (j : Text)
      → (admit now j a.budget).1 ≡ ltb (length (recent now (times j a.log))) a.budget.limit
  unfolding admit
  admit-recent j = ground (arith, seen-recent j)

pub write_limit :
    (now : ℕ) (a : Audited) (j : Text)
    → (write a now j (admit now j a.budget)).budget.limit ≡ a.budget.limit
unfolding admit
write_limit now a j = ground arith

pub fresh-IsFaithful : (limit : ℕ) → IsFaithful 0 (record { budget = fresh limit; log = [] })
unfolding fresh lookup
fresh-IsFaithful limit = record {
  distinct = tt;
  ordered = λ k. omega arith;
  agrees = λ k now h. refl;
  in_order = λ k. omega arith;
}

-- A fresh budget, and the requests that it served.
abbrev pub audit : ℕ → Log → Audited
audit limit = serve (record { budget = fresh limit; log = [] })

abbrev pub last_time : ℕ → Log → ℕ
last_time last [] = last
last_time last ((now, k) ∷ calls) = last_time now calls

pub serve-IsFaithful :
    (last : ℕ) (a : Audited) (calls : Log)
    → IsOrdered last calls
    → IsFaithful last a
    → IsFaithful (last_time last calls) (serve a calls)
unfolding serve
serve-IsFaithful last a [] o v = v
serve-IsFaithful last a ((now, k) ∷ calls) o v =
    serve-IsFaithful now _ calls o.1 (write-IsFaithful last now a o.0 v k)

pub serve_limit : (a : Audited) (calls : Log) → (serve a calls).budget.limit ≡ a.budget.limit
unfolding serve
serve_limit a [] = refl
serve_limit a ((now, k) ∷ calls) =
    serve_limit (write a now k (admit now k a.budget)) calls ∙ write_limit now a k
