-- ===== src/Record/Transaction.antt =====
-- What a transaction does to the store.
use shimpz_admin.Prelude.{
  ◌≡◌, ◌≢◌, refl, sym, subst, ◌⊎◌, inl, inr, if_pos, if_neg, Bool, true, false, [], Option, none,
  some, Option-discrete, Bool-cases,
}
use shimpz_admin.Signin.Sessions.{Sessions, end_all}
use shimpz_admin.Record.{
  StateError, Result, ok, err, Data, Store, Disk, replaced, kept, unconfirmed, Journal,
  Value-discrete, is_rotated, saved, write, recorded, persist, updated, mutate_read, mutate,
}

-- The sessions before and after a transaction that wrote one record over another one: they all end where
-- the session secret is another one and the write succeeded, and stay else.
abbrev pub SecretEnds : Disk → Data → Data → Sessions → Sessions → Type 0
SecretEnds disk d d' s s' =
    ((disk ≡ replaced)
      × (d'.session_secret ≢ d.session_secret)
      × (s' ≡ record s { last_seen = [] }))
    ⊎ (((disk ≡ unconfirmed) ⊎ (d'.session_secret ≡ d.session_secret)) × (s' ≡ s))

rotated_cases :
    (d d' : Data)
    → ((is_rotated d d' ≡ true) × (d'.session_secret ≢ d.session_secret))
      ⊎ ((is_rotated d d' ≡ false) × (d'.session_secret ≡ d.session_secret))
rotated_cases d d' = elim (Option-discrete Value-discrete d'.session_secret d.session_secret) [
  | yes e ↦
      inr
        (if_pos (Option-discrete Value-discrete d'.session_secret d.session_secret) e false true, e)
  | no n ↦
      inl
        (if_neg (Option-discrete Value-discrete d'.session_secret d.session_secret) n false true, n)
]

abbrev pub Untouched {ℓ} : {J : Type ℓ} → Store J → Store J → Type 0
Untouched s s' = (s'.content ≡ s.content) × (s'.sessions ≡ s.sessions)

module _ {ℓ κ} {J : Type ℓ} {R : Type κ} where
  -- The journal, if there is one, took the outcome.
  abbrev pub Agrees : Option (Journal J R) → R → J → J → Type ℓ
  Agrees none r j j' = j' ≡ j
  Agrees (some journal) r j j' = journal r j ≡ (j', none)

  -- Why a transaction writes nothing: the record cannot be read, is not changed, or its change is not to
  -- be written, or is refused by the journal, or does not come to the disk.
  pub data Skips (disk : Disk) (update : Data → Result (Data × R)) (should_write : R → Bool)
      (journal : Option (Journal J R)) (s : Store J) : Type (ℓ ⊔ κ) where
    unread : (e : StateError) → s.content ≡ err e → Skips disk update should_write journal s
    unchanged :
        (d : Data) (e : StateError)
        → s.content ≡ ok d
        → update d ≡ err e
        → Skips disk update should_write journal s
    unwanted :
        (d d' : Data) (r : R)
        → s.content ≡ ok d
        → update d ≡ ok (d', r)
        → should_write r ≡ false
        → Skips disk update should_write journal s
    refused :
        (d d' : Data) (r : R) (asked : Journal J R) (j : J) (e : StateError)
        → s.content ≡ ok d
        → update d ≡ ok (d', r)
        → journal ≡ some asked
        → asked r s.journal ≡ (j, some e)
        → Skips disk update should_write journal s
    unwritten : disk ≡ kept → Skips disk update should_write journal s

  -- A transaction that reached the file.
  pub record Committed (disk : Disk) (update : Data → Result (Data × R)) (should_write : R → Bool)
      (journal : Option (Journal J R)) (s s' : Store J) : Type (ℓ ⊔ κ) where
    pub before : Data
    pub after : Data
    pub outcome : R
    pub read : s.content ≡ ok before
    pub change : update before ≡ ok (after, outcome)
    pub wanted : should_write outcome ≡ true
    pub agreed : Agrees journal outcome s.journal s'.journal
    pub stored : s'.content ≡ ok after
    pub sessions : SecretEnds disk before after s.sessions s'.sessions

  module _ (update : Data → Result (Data × R)) (should_write : R → Bool) where
    Either : Disk → Option (Journal J R) → Store J → Store J → Type (ℓ ⊔ κ)
    Either disk journal s s' =
        (Untouched s s' × Skips disk update should_write journal s)
        ⊎ Committed disk update should_write journal s s'

    -- A record that was saved over another one.
    saved-SecretEnds :
        (d d' : Data) (r : R) (s : Store J)
        → SecretEnds replaced d d' s.sessions (saved (is_rotated d d') d' r s).0.sessions
    unfolding end_all
    saved-SecretEnds d d' r s = elim (rotated_cases d d') [
      | inl (b, n) ↦ rw b (inl (refl, n, refl))
      | inr (b, e) ↦ rw b (inr (inr e, refl))
    ]

    saved-content :
        (b : Bool) (d : Data) (r : R) (s : Store J)
        → ((saved b d r s).0.content ≡ ok d) × ((saved b d r s).0.journal ≡ s.journal)
    saved-content true d r s = (refl, refl)
    saved-content false d r s = (refl, refl)

    module _ (d d' : Data) (r : R) (change : update d ≡ ok (d', r))
        (wanted : should_write r ≡ true) where
      write_cases :
          (disk : Disk) (journal : Option (Journal J R)) (s t : Store J)
          → s.content ≡ ok d
          → Agrees journal r s.journal t.journal
          → t.content ≡ s.content
          → t.sessions ≡ s.sessions
          → Either disk journal s (write disk d d' r t).0
      unfolding Either
      write_cases kept journal s t e a c q = inl ((c, q), unwritten refl)
      write_cases unconfirmed journal s t e a c q = inr (record {
        before = d;
        after = d';
        outcome = r;
        read = e;
        change = change;
        wanted = wanted;
        agreed = a;
        stored = refl;
        sessions = inr (inl refl, q);
      })
      write_cases replaced journal s t e a c q =
          let (sc, sj) = saved-content (is_rotated d d') d' r t in
          inr (record {
            before = d;
            after = d';
            outcome = r;
            read = e;
            change = change;
            wanted = wanted;
            agreed = subst (λ j. Agrees journal r s.journal j) (sym sj) a;
            stored = sc;
            sessions =
                subst (λ x. SecretEnds replaced d d' x (saved (is_rotated d d') d' r t).0.sessions)
                  q (saved-SecretEnds d d' r t);
          })

      recorded_cases :
          (disk : Disk) (journal : Journal J R) (s : Store J) (o : J × Option StateError)
          → s.content ≡ ok d
          → journal r s.journal ≡ o
          → Either disk (some journal) s (recorded disk d d' r s o).0
      unfolding Either
      recorded_cases disk journal s (j, some e) h a =
          inl ((refl, refl), refused d d' r journal j e h change refl a)
      recorded_cases disk journal s (j, none) h a =
          write_cases disk (some journal) s (record s { journal = j }) h a refl refl

      persist_cases :
          (disk : Disk) (journal : Option (Journal J R)) (s : Store J)
          → s.content ≡ ok d
          → Either disk journal s (persist disk journal d d' r s).0
      persist_cases disk none s h = write_cases disk none s s h refl refl refl
      persist_cases disk (some journal) s h =
          recorded_cases disk journal s (journal r s.journal) h refl

    updated_cases :
        (disk : Disk) (journal : Option (Journal J R)) (d : Data) (s : Store J)
        → s.content ≡ ok d
        → (o : Result (Data × R)) → update d ≡ o
        → Either disk journal s (updated disk should_write journal d s o).0
    unfolding Either
    updated_cases disk journal d s h (err e) g = inl ((refl, refl), unchanged d e h g)
    updated_cases disk journal d s h (ok (d', r)) g = elim (Bool-cases (should_write r)) [
      | inl w ↦ rw w (persist_cases d d' r g w disk journal s h)
      | inr w ↦ rw w (inl ((refl, refl), unwanted d d' r h g w))
    ]

    read_cases :
        (disk : Disk) (journal : Option (Journal J R)) (s : Store J) (o : Result Data)
        → s.content ≡ o
        → Either disk journal s (mutate_read disk update should_write journal s o).0
    unfolding Either
    read_cases disk journal s (err e) h = inl ((refl, refl), unread e h)
    read_cases disk journal s (ok d) h = updated_cases disk journal d s h (update d) refl

    -- A transaction either leaves the file and the sessions as they were, because the record cannot be
    -- read, is not changed, or its change is not to be written, or is refused by the journal, or does not
    -- come to the disk; or what it wrote is what its change makes of the record that it read, a change
    -- whose outcome was to be written and which the journal, where there is one, had taken. Then every
    -- session ends exactly where the session secret is another one and the write succeeded.
    pub mutate_cases :
        (disk : Disk) (journal : Option (Journal J R)) (s : Store J)
        → (Untouched s (mutate disk update should_write journal s).0
            × Skips disk update should_write journal s)
          ⊎ Committed disk update should_write journal s
              (mutate disk update should_write journal s).0
    unfolding mutate Either
    mutate_cases disk journal s = read_cases disk journal s s.content refl
