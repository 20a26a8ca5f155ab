-- ===== src/Signin/Recovery/Spending.antt =====
-- A recovery code is spent once.
use shimpz_admin.Prelude.{
  ℕ, suc, ◌≡◌, refl, sym, ap, ◌∙◌, subst, inl, inr, true, false, List, [], ◌∷◌, Option, none, some,
  arith, Text, length, all, keep, Bool-cases, Option-cases,
}
use shimpz_admin.Prelude.Int.{ℤ, pos, ltb_ℤ}
use shimpz_admin.Signin.Recovery.{
  Entry, CodeSet, Candidate, text_or_empty, hex64, entry_ok, all_ok, items_of, is_unused, is_match,
  validated, remaining, last_match, mark_at, use_up, spend,
}
use shimpz_admin.Signin.Recovery.Matching.{
  unmatched, Marks, length-mark_at, digests-mark_at, mark_at-entry_ok, last_match-unmatched,
  last_match-Marks,
}

abbrev digest_text : Candidate → Text
digest_text derived = text_or_empty derived.digest

-- What a spent code was, and the set that is left.
record Spent (derived : Candidate) (now : ℤ) (s s' : CodeSet) : Type 0 where
  items : List (Option Entry)
  index : ℕ
  held : s.stored ≡ some items
  salted : hex64 s.salt ≡ true
  valid : all_ok items ≡ true
  result : s' ≡ record { salt = s.salt; stored = some (mark_at now index items) }
  marks : Marks (digest_text derived) now items index

used-Spent :
    (derived : Candidate) (now : ℤ) (s s' : CodeSet) (items : List (Option Entry)) (m : Option ℕ)
    → s.stored ≡ some items
    → hex64 s.salt ≡ true
    → all_ok items ≡ true
    → last_match (digest_text derived) 0 items none ≡ m
    → use_up now s m ≡ (s', true)
    → Spent derived now s s'
used-Spent derived now s s' items none e a v l h = absurd (ground (arith, h))
used-Spent derived now s s' items (some j) e a v l h =
    elim (last_match-Marks (digest_text derived) now 0 items none j (ground (arith, v)) l) [
      | inl (_, n) ↦ absurd (ground (arith, n))
      | inr (k, f, r) ↦ record {
        items = items;
        index = k;
        held = e;
        salted = a;
        valid = v;
        result = ground (arith, h, e, f);
        marks = r;
      }
    ]

spend-Spent :
    (derived : Candidate) (now : ℤ) (s s' : CodeSet)
    → spend derived now s ≡ some (s', true)
    → Spent derived now s s'
unfolding spend validated
spend-Spent derived now s s' h = elim (Bool-cases (hex64 s.salt)) [
  | inr e ↦ absurd (ground (arith, h, e))
  | inl e ↦ elim (Option-cases s.stored) [
    | inl f ↦ absurd (ground (arith, h, e, f))
    | inr (items, f) ↦ elim (Bool-cases (all_ok items)) [
      | inr v ↦ absurd (ground (arith, h, e, f, v))
      | inl v ↦ used-Spent derived now s s' items _ f e v refl (ground (arith, h, e, f, v))
    ]
  ]
]

all_ok-mark_at :
    (now : ℤ) (k : ℕ) (items : List (Option Entry))
    → ltb_ℤ now (pos 1) ≡ false
    → all_ok items ≡ true
    → all_ok (mark_at now k items) ≡ true
all_ok-mark_at now k items l v =
    rw (digests-mark_at now k items, length-mark_at now k items)
      (ground (arith, v, mark_at-entry_ok now k items l))

abbrev marked : CodeSet → ℤ → ℕ → List (Option Entry) → CodeSet
marked s now k items = record { salt = s.salt; stored = some (mark_at now k items) }

marked-validated :
    (s : CodeSet) (now : ℤ) (k : ℕ) (items : List (Option Entry))
    → ltb_ℤ now (pos 1) ≡ false
    → hex64 s.salt ≡ true
    → all_ok items ≡ true
    → validated (marked s now k items) ≡ true
unfolding validated
marked-validated s now k items l a v = rw (a, all_ok-mark_at now k items l v) refl

spend-unmatched :
    (derived : Candidate) (now : ℤ) (s : CodeSet)
    → validated s ≡ true
    → unmatched (digest_text derived) (items_of s.stored) ≡ true
    → spend derived now s ≡ some (s, false)
unfolding spend
spend-unmatched derived now s v u =
    rw (v, last_match-unmatched (digest_text derived) 0 (items_of s.stored) none u) refl

pub spend_once :
    (derived : Candidate) (now now' : ℤ) (s s' : CodeSet)
    → ltb_ℤ now (pos 1) ≡ false
    → spend derived now s ≡ some (s', true)
    → spend derived now' s' ≡ some (s', false)
spend_once derived now now' s s' l h =
    let p = spend-Spent derived now s s' h in
    subst (λ x. spend derived now' x ≡ some (x, false)) (sym p.result)
      (spend-unmatched derived now' (marked s now p.index p.items)
        (marked-validated s now p.index p.items l p.salted p.valid) p.marks.spent)

remaining_lem :
    (s : CodeSet)
    → validated s ≡ true
    → remaining s ≡ some (length (keep is_unused (items_of s.stored)))
unfolding remaining
remaining_lem s v = rw v refl

spent-validated :
    (s : CodeSet) (items : List (Option Entry))
    → s.stored ≡ some items
    → hex64 s.salt ≡ true
    → all_ok items ≡ true
    → validated s ≡ true
unfolding validated
spent-validated s items e a v = rw (a, e) v

-- Spending a code at a time after 1970 leaves a valid set with one unused code less.
pub spend-remaining :
    (derived : Candidate) (now : ℤ) (s s' : CodeSet)
    → ltb_ℤ now (pos 1) ≡ false
    → spend derived now s ≡ some (s', true)
    → (n : ℕ) × (remaining s ≡ some (suc n)) × (remaining s' ≡ some n)
spend-remaining derived now s s' l h =
    let p = spend-Spent derived now s s' h in
    let v = marked-validated s now p.index p.items l p.salted p.valid in
    (
      length (keep is_unused (mark_at now p.index p.items)),
      remaining_lem s (spent-validated s p.items p.held p.salted p.valid)
          ∙ ap (λ o. some (length (keep is_unused (items_of o)))) p.held
          ∙ ap some p.marks.fewer,
      subst (λ x. remaining x ≡ some (length (keep is_unused (mark_at now p.index p.items))))
          (sym p.result) (remaining_lem _ v),
    )

entry-nil : (item : Option Entry) → entry_ok item ≡ true → is_match [] item ≡ false
entry-nil none h = ground (arith, h)
entry-nil (some e) h = ground (arith, h)

items-nil : (items : List (Option Entry)) → all entry_ok items ≡ true → unmatched [] items ≡ true
items-nil [] h = refl
items-nil (item ∷ items) h = ground (arith, h, items-nil items, entry-nil item)

unmatched-nil : (s : CodeSet) → validated s ≡ true → unmatched [] (items_of s.stored) ≡ true
unfolding validated
unmatched-nil s v = elim (Option-cases s.stored) [
  | inl e ↦ rw e refl
  | inr (items, e) ↦ rw e (items-nil items (ground (arith, v, e)))
]

-- A candidate without a digest, which stands for a malformed code, spends nothing of a valid set.
pub spend_malformed :
    (derived : Candidate) (now : ℤ) (s : CodeSet)
    → validated s ≡ true
    → derived.digest ≡ none
    → spend derived now s ≡ some (s, false)
spend_malformed derived now s v e = spend-unmatched derived now s v (rw e (unmatched-nil s v))
