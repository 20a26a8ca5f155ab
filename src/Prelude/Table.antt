-- ===== src/Prelude/Table.antt =====
-- A `HashMap` as an association list whose keys are pairwise distinct. Nothing that the program
-- computes from a map depends on the order of its entries.
use Prim.Native.Nat.{◌+◌, ◌≤◌}
use mathlib.Core.Path.{◌≡◌, refl}
use mathlib.Core.Logic.{ite}
use mathlib.Core.Bool.{Bool}
use mathlib.Core.List.{List, [], ◌∷◌}
use mathlib.Core.Option.{Option, none, some}
use native.Mathlib.Omega.{arith}
use shimpz_admin.Prelude.Tests.{if◌then◌else◌}
use shimpz_admin.Prelude.Lists.{length}

abbrev pub Table {ℓ} : Type ℓ → Type ℓ → Type ℓ
Table K V = List (K × V)

-- What is left of a value under a test.
abbrev pub only {ℓ} : {V : Type ℓ} → (V → Bool) → Option V → Option V
only p none = none
only p (some v) = if p v then some v else none

module _ {ℓ} {K V : Type ℓ} (d : Discrete K) where
  unfoldable pub lookup : K → Table K V → Option V
  lookup k [] = none
  lookup k ((j, v) ∷ m) = ite (d j k) (some v) (lookup k m)

  unfoldable pub insert : K → V → Table K V → Table K V
  insert k v [] = (k, v) ∷ []
  insert k v ((j, w) ∷ m) = ite (d j k) ((k, v) ∷ m) ((j, w) ∷ insert k v m)

  unfoldable pub erase : K → Table K V → Table K V
  erase k [] = []
  erase k ((j, w) ∷ m) = let rest = erase k m in ite (d j k) rest ((j, w) ∷ rest)

  unfoldable pub retain : (K → V → Bool) → Table K V → Table K V
  retain p [] = []
  retain p ((j, w) ∷ m) = let rest = retain p m in if p j w then (j, w) ∷ rest else rest

  abbrev pub IsDistinct : Table K V → Type ℓ
  IsDistinct [] = Unit
  IsDistinct ((j, w) ∷ m) = (lookup j m ≡ none) × IsDistinct m

  pub lookup-insert :
      (j k : K) (v : V) (m : Table K V)
      → lookup j (insert k v m) ≡ ite (d k j) (some v) (lookup j m)
  unfolding lookup insert
  lookup-insert j k v [] = refl
  lookup-insert j k v ((i, w) ∷ m) = ground (arith, lookup-insert j k v m)

  pub lookup-erase :
      (j k : K) (m : Table K V) → lookup j (erase k m) ≡ ite (d k j) none (lookup j m)
  unfolding lookup erase
  lookup-erase j k [] = ground arith
  lookup-erase j k ((i, w) ∷ m) = ground (arith, lookup-erase j k m)

  pub retain_absent :
      (p : K → V → Bool) (j : K) (m : Table K V) → lookup j m ≡ none → lookup j (retain p m) ≡ none
  unfolding lookup retain
  retain_absent p j [] h = refl
  retain_absent p j ((i, w) ∷ m) h = ground (arith, retain_absent p j m)

  pub lookup-retain :
      (p : K → V → Bool) (j : K) (m : Table K V)
      → IsDistinct m
      → lookup j (retain p m) ≡ only (p j) (lookup j m)
  unfolding lookup retain
  lookup-retain p j [] h = refl
  lookup-retain p j ((i, w) ∷ m) h =
      ground (arith, lookup-retain p j m h.1, retain_absent p j m, retain_absent p i m)

  pub erase_self : (k : K) (m : Table K V) → lookup k (erase k m) ≡ none
  unfolding lookup erase
  erase_self k [] = refl
  erase_self k ((i, w) ∷ m) = ground (arith, erase_self k m)

  pub insert-IsDistinct : (k : K) (v : V) (m : Table K V) → IsDistinct m → IsDistinct (insert k v m)
  unfolding insert lookup
  insert-IsDistinct k v [] h = (refl, tt)
  insert-IsDistinct k v ((i, w) ∷ m) h =
      ground (arith, insert-IsDistinct k v m h.1, lookup-insert i k v m)

  pub erase-IsDistinct : (k : K) (m : Table K V) → IsDistinct m → IsDistinct (erase k m)
  unfolding erase lookup
  erase-IsDistinct k [] h = tt
  erase-IsDistinct k ((i, w) ∷ m) h = ground (arith, erase-IsDistinct k m h.1, lookup-erase i k m)

  pub retain-IsDistinct :
      (p : K → V → Bool) (m : Table K V) → IsDistinct m → IsDistinct (retain p m)
  unfolding retain lookup
  retain-IsDistinct p [] h = tt
  retain-IsDistinct p ((i, w) ∷ m) h =
      ground (arith, retain-IsDistinct p m h.1, retain_absent p i m)

  pub length-insert-le : (k : K) (v : V) (m : Table K V) → length (insert k v m) ≤ length m + 1
  unfolding insert
  length-insert-le k v [] = omega arith
  length-insert-le k v ((i, w) ∷ m) = ground (arith, length-insert-le k v m)

  pub length-retain-le : (p : K → V → Bool) (m : Table K V) → length (retain p m) ≤ length m
  unfolding retain
  length-retain-le p [] = omega arith
  length-retain-le p ((i, w) ∷ m) = ground (arith, length-retain-le p m)

  pub length-erase-le : (k : K) (m : Table K V) → length (erase k m) ≤ length m
  unfolding erase
  length-erase-le k [] = omega arith
  length-erase-le k ((i, w) ∷ m) = ground (arith, length-erase-le k m)

  pub length-erase-lt :
      (k : K) {v : V} (m : Table K V) → lookup k m ≡ some v → length (erase k m) + 1 ≤ length m
  unfolding erase lookup
  length-erase-lt k [] h = cc
  length-erase-lt k {v} ((i, w) ∷ m) h =
      ground (arith, length-erase-lt k {v = v} m, length-erase-le k m)
