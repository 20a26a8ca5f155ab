-- ===== src/Signin/Sessions/Eviction.antt =====
-- Which sessions a registration ends.
use shimpz_admin.Prelude.{
  ℕ, zero, suc, ◌≤◌, ◌<◌, ◌≡◌, refl, inl, inr, ite, Bool, true, false, List, [], ◌∷◌, ◌++◌, none,
  some, arith, Text, Text-discrete, length, leb, Bool-cases, Option-cases,
}
use shimpz_admin.Prelude.Table.{
  Table, lookup, erase, IsDistinct, lookup-erase, erase-IsDistinct, length-erase-lt,
}
use shimpz_admin.Signin.Sessions.{Seen, before, oldest, evict}

abbrev pub Sub : Table Text Seen → Table Text Seen → Type 0
Sub m' m =
    (k : Text) (s : Seen) → lookup Text-discrete k m' ≡ some s → lookup Text-discrete k m ≡ some s

-- The least entry is an entry.
oldest-lookup :
    (m : Table Text Seen) (k : Text) (s : Seen)
    → IsDistinct Text-discrete m
    → oldest m ≡ some (k, s)
    → lookup Text-discrete k m ≡ some s
unfolding oldest lookup
oldest-lookup [] k s d h = cc
oldest-lookup ((j, r) ∷ m) k s d h = elim (Option-cases (oldest m)) [
  | inl e ↦ ground (arith, e)
  | inr ((k', s'), e) ↦ ground (arith, e, oldest-lookup m k' s' d.1 e)
]

lookup-oldest-none :
    (m : Table Text Seen) (j : Text) → oldest m ≡ none → lookup Text-discrete j m ≡ none
unfolding oldest lookup
lookup-oldest-none [] j h = refl
lookup-oldest-none (e ∷ m) j h = cc

-- No entry is before the least one.
oldest-least :
    (m : Table Text Seen) (k j : Text) (s r : Seen)
    → oldest m ≡ some (k, s)
    → lookup Text-discrete j m ≡ some r
    → before r s ≡ false
unfolding oldest lookup
oldest-least [] k j s r h e = cc
oldest-least ((i, q) ∷ m) k j s r h e = elim (Option-cases (oldest m)) [
  | inl f ↦ ground (arith, f, lookup-oldest-none m j f)
  | inr ((k', s'), f) ↦ ground (arith, f, oldest-least m k' j s' r f)
]

abbrev pub has : Text → List Text → Bool
has j [] = false
has j (k ∷ ks) = ite (Text-discrete k j) true (has j ks)

has-append :
    (j k : Text) (ks : List Text) → has j (ks ++ k ∷ []) ≡ ite (Text-discrete k j) true (has j ks)
has-append j k [] = refl
has-append j k (i ∷ ks) = ground (arith, has-append j k ks)

-- What one call of the eviction loop leaves and announces.
pub record Evicts (m : Table Text Seen) (ks : List Text) (m' : Table Text Seen) (ks' : List Text)
    : Type 0 where
  pub distinct : IsDistinct Text-discrete m'
  pub kept : Sub m' m
  pub least :
      (j k : Text) (r s : Seen)
      → lookup Text-discrete j m ≡ some r
      → lookup Text-discrete j m' ≡ none
      → lookup Text-discrete k m' ≡ some s
      → before s r ≡ false
  pub announced :
      (j : Text) (r : Seen)
      → lookup Text-discrete j m ≡ some r
      → lookup Text-discrete j m' ≡ none
      → has j ks' ≡ true
  pub grows : (j : Text) → has j ks ≡ true → has j ks' ≡ true

stop :
    (capacity : ℕ) (m : Table Text Seen) (ks : List Text)
    → IsDistinct Text-discrete m
    → Evicts m ks m ks
stop capacity m ks d = record {
  distinct = d;
  kept = λ k s e. e;
  least = λ j k r s e f g. cc;
  announced = λ j r e f. cc;
  grows = λ j h. h;
}

evict-next :
    (capacity : ℕ) (m : Table Text Seen) (ks : List Text) (k : Text) (s : Seen)
    (m' : Table Text Seen) (ks' : List Text)
    → IsDistinct Text-discrete m
    → oldest m ≡ some (k, s)
    → Evicts (erase Text-discrete k m) (ks ++ k ∷ []) m' ks'
    → Evicts m ks m' ks'
evict-next capacity m ks k s m' ks' d o v = record {
  distinct = v.distinct;
  kept = λ j r e. ground (arith, v.kept j r e, lookup-erase Text-discrete j k m);
  least = λ j i r q e f g. elim (Text-discrete k j) [
    | yes same ↦ ground (
      arith,
      oldest-lookup m k s d o,
      oldest-least m k i s q o,
      v.kept i q g,
      lookup-erase Text-discrete i k m,
    )
    | no other ↦ v.least j i r q (ground (arith, lookup-erase Text-discrete j k m)) f g
  ];
  announced = λ j r e f. elim (Text-discrete k j) [
    | yes same ↦ v.grows j (ground (arith, has-append j k ks))
    | no other ↦ v.announced j r (ground (arith, lookup-erase Text-discrete j k m)) f
  ];
  grows = λ j h. v.grows j (ground (arith, has-append j k ks));
}

pub evict-Evicts :
    (fuel capacity : ℕ) (m : Table Text Seen) (ks : List Text)
    → IsDistinct Text-discrete m
    → Evicts m ks (evict fuel capacity m ks).0 (evict fuel capacity m ks).1
unfolding evict
evict-Evicts zero capacity m ks d = stop capacity m ks d
evict-Evicts (suc fuel) capacity m ks d = elim (Bool-cases (leb capacity (length m))) [
  | inr e ↦ rw (e, evict) (stop capacity m ks d)
  | inl e ↦ elim (Option-cases (oldest m)) [
    | inl f ↦ rw (e, f, evict) (stop capacity m ks d)
    | inr ((k, s), f) ↦
        rw (e, f, evict)
          (evict-next capacity m ks k s _ _ d f (
            evict-Evicts fuel capacity (erase Text-discrete k m) (ks ++ k ∷ [])
              (erase-IsDistinct Text-discrete k m d)))
  ]
]

length-oldest-none : (m : Table Text Seen) → oldest m ≡ none → length m ≡ 0
unfolding oldest
length-oldest-none [] h = refl
length-oldest-none (e ∷ m) h = cc

-- With an entry's worth of fuel for each entry the loop ends below the capacity.
pub evict_enough :
    (fuel capacity : ℕ) (m : Table Text Seen) (ks : List Text)
    → 0 < capacity
    → IsDistinct Text-discrete m
    → length m ≤ fuel
    → length (evict fuel capacity m ks).0 < capacity
unfolding evict
evict_enough zero capacity m ks pos d h = omega arith
evict_enough (suc fuel) capacity m ks pos d h = elim (Bool-cases (leb capacity (length m))) [
  | inr e ↦ rw (e, evict) (ground arith)
  | inl e ↦ elim (Option-cases (oldest m)) [
    | inl f ↦ absurd (ground (arith, length-oldest-none m f))
    | inr ((k, s), f) ↦
        rw (e, f, evict)
          (evict_enough fuel capacity (erase Text-discrete k m) (ks ++ k ∷ []) pos
            (erase-IsDistinct Text-discrete k m d)
            (omega (arith, length-erase-lt Text-discrete k {v = s} m (oldest-lookup m k s d f))))
  ]
]
