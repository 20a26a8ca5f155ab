-- ===== src/Signin/Recovery/Matching.antt =====
-- The loop that matches a digest, and the entry that it marks as used.
use shimpz_admin.Prelude.{
  ℕ, zero, suc, ◌+◌, ◌≤◌, ◌≡◌, ◌⊎◌, refl, inl, inr, Bool, true, false, not, List, [], ◌∷◌, Option,
  none, some, arith, Text, map, length, all, keep, Bool-cases,
}
use shimpz_admin.Prelude.Int.{ℤ, pos, ltb_ℤ}
use shimpz_admin.Signin.Recovery.{
  Entry, digest_of, entry_ok, is_among, distinct_count, is_unused, is_match, last_match, mark,
  mark_at,
}

abbrev pub unmatched : Text → List (Option Entry) → Bool
unmatched p items = all (λ item. not (is_match p item)) items

pub length-map : {A : Type 0} {B : Type 0} (f : A → B) (xs : List A) → length (map f xs) ≡ length xs
length-map f [] = refl
length-map f (x ∷ xs) = ground (arith, length-map f xs)

distinct_count-le : (ts : List Text) → distinct_count ts ≤ length ts
distinct_count-le [] = omega arith
distinct_count-le (t ∷ ts) = ground (arith, distinct_count-le ts)

digest_of-mark : (now : ℤ) (item : Option Entry) → digest_of (mark now item) ≡ digest_of item
digest_of-mark now none = refl
digest_of-mark now (some e) = refl

-- Marking keeps the digests.
pub digests-mark_at :
    (now : ℤ) (i : ℕ) (items : List (Option Entry))
    → map digest_of (mark_at now i items) ≡ map digest_of items
unfolding mark_at
digests-mark_at now i [] = refl
digests-mark_at now zero (item ∷ items) = rw (digest_of-mark now item) refl
digests-mark_at now (suc i) (item ∷ items) = rw (digests-mark_at now i items) refl

pub length-mark_at :
    (now : ℤ) (i : ℕ) (items : List (Option Entry)) → length (mark_at now i items) ≡ length items
unfolding mark_at
length-mark_at now i [] = refl
length-mark_at now zero (item ∷ items) = refl
length-mark_at now (suc i) (item ∷ items) = ground (arith, length-mark_at now i items)

-- An entry marked at 1 or later is as valid as before.
mark-entry_ok :
    (now : ℤ) (item : Option Entry)
    → ltb_ℤ now (pos 1) ≡ false
    → entry_ok item ≡ true
    → entry_ok (mark now item) ≡ true
mark-entry_ok now none l h = h
mark-entry_ok now (some e) l h = ground (arith, l, h)

pub mark_at-entry_ok :
    (now : ℤ) (i : ℕ) (items : List (Option Entry))
    → ltb_ℤ now (pos 1) ≡ false
    → all entry_ok items ≡ true
    → all entry_ok (mark_at now i items) ≡ true
unfolding mark_at
mark_at-entry_ok now i [] l h = refl
mark_at-entry_ok now zero (item ∷ items) l h = ground (arith, mark-entry_ok now item l)
mark_at-entry_ok now (suc i) (item ∷ items) l h = ground (arith, mark_at-entry_ok now i items l)

-- Where nothing matches, the loop keeps what it had.
pub last_match-unmatched :
    (p : Text) (i : ℕ) (items : List (Option Entry)) (m : Option ℕ)
    → unmatched p items ≡ true
    → last_match p i items m ≡ m
unfolding last_match
last_match-unmatched p i [] m h = refl
last_match-unmatched p i (item ∷ items) m h = ground (arith, last_match-unmatched p (i + 1) items m)

-- What marking the entry at an index does, if the loop found it.
pub record Marks (p : Text) (now : ℤ) (items : List (Option Entry)) (k : ℕ) : Type 0 where
  pub among : is_among p (map digest_of items) ≡ true
  pub spent : unmatched p (mark_at now k items) ≡ true
  pub fewer : length (keep is_unused items) ≡ suc (length (keep is_unused (mark_at now k items)))

distinct-tail :
    (t : Text) (ts : List Text)
    → distinct_count (t ∷ ts) ≡ suc (length ts)
    → (is_among t ts ≡ false) × (distinct_count ts ≡ length ts)
distinct-tail t ts h = ground (arith, distinct_count-le ts)

mark-unmatched : (p : Text) (now : ℤ) (item : Option Entry) → is_match p (mark now item) ≡ false
mark-unmatched p now none = ground arith
mark-unmatched p now (some e) = ground arith

mark-unused : (now : ℤ) (item : Option Entry) → is_unused (mark now item) ≡ false
mark-unused now none = refl
mark-unused now (some e) = refl

here :
    (p : Text) (now : ℤ) (item : Option Entry) (items : List (Option Entry))
    → is_match p item ≡ true
    → unmatched p items ≡ true
    → Marks p now (item ∷ items) 0
unfolding mark_at
here p now item items h u = record {
  among = ground (arith, h);
  spent = ground (arith, u, mark-unmatched p now item);
  fewer = ground (arith, h, mark-unused now item);
}

there :
    (p : Text) (now : ℤ) (item : Option Entry) (items : List (Option Entry)) (k : ℕ)
    → is_among (digest_of item) (map digest_of items) ≡ false
    → Marks p now items k
    → Marks p now (item ∷ items) (suc k)
unfolding mark_at
there p now item items k a m = record {
  among = ground (arith, m.among);
  spent = ground (arith, m.spent, m.among, a);
  fewer = ground (arith, m.fewer);
}

pub last_match-Marks :
    (p : Text) (now : ℤ) (i : ℕ) (items : List (Option Entry)) (m : Option ℕ) (j : ℕ)
    → distinct_count (map digest_of items) ≡ length items
    → last_match p i items m ≡ some j
    → ((unmatched p items ≡ true) × (m ≡ some j)) ⊎ ((k : ℕ) × (j ≡ i + k) × Marks p now items k)
unfolding last_match
last_match-Marks p now i [] m j d h = inl (refl, h)
last_match-Marks p now i (item ∷ items) m j d h =
    let (a, d') =
      distinct-tail (digest_of item) (map digest_of items)
        (ground (arith, d, length-map digest_of items)) in
    elim (Bool-cases (is_match p item)) [
      | inl e ↦
          elim (last_match-Marks p now (i + 1) items (some i) j
            (ground (arith, d', length-map digest_of items)) (ground (arith, h, e))) [
              | inl (u, f) ↦ inr (0, ground (arith, f), here p now item items e u)
              | inr (k, f, r) ↦ inr (suc k, ground (arith, f), there p now item items k a r)
            ]
      | inr e ↦
          elim (last_match-Marks p now (i + 1) items m j
            (ground (arith, d', length-map digest_of items)) (ground (arith, h, e))) [
              | inl (u, f) ↦ inl (ground (arith, e, u), f)
              | inr (k, f, r) ↦ inr (suc k, ground (arith, f), there p now item items k a r)
            ]
    ]
