-- ===== src/Chat/Run/Pages.antt =====
-- The pages that watch a run.
use shimpz_admin.Prelude.{
  ℕ, ◌≡◌, refl, ap, Bool, true, not, ◌&&◌, List, [], ◌∷◌, arith, keep, ◌==◌, Bool-cases, inl, inr,
}
use shimpz_admin.Chat.Run.{Json, RunState, mem, publish}

mem-keep : (p : ℕ → Bool) (o : ℕ) (os : List ℕ) → mem o (keep p os) ≡ (mem o os && p o)
mem-keep p o [] = refl
mem-keep p o (x ∷ xs) = elim (Bool-cases (o == x)) [
  | inl e ↦
      let f : o ≡ x = ground (arith, e) in
      let g : p o ≡ p x = ap p f in ground (arith, e, g, mem-keep p o xs)
  | inr e ↦ ground (arith, e, mem-keep p o xs)
]

later : (o x : ℕ) (xs : List ℕ) → mem o xs ≡ true → mem o (x ∷ xs) ≡ true
later o x xs m = elim (Bool-cases (o == x)) [ inl e ↦ rw e refl | inr e ↦ rw e m ]

not_failed : (m f t : Bool) → f ≡ (m && not t) → m ≡ true → not f ≡ t
not_failed m f t e h = ground (arith, e, h)

-- Members that a test tells apart alike are kept alike.
keep-same :
    (p q : ℕ → Bool) (os : List ℕ) → ((o : ℕ) → mem o os ≡ true → p o ≡ q o) → keep p os ≡ keep q os
keep-same p q [] h = refl
keep-same p q (x ∷ xs) h =
    let e : (x == x) ≡ true = ground arith in
    let f : p x ≡ q x = h x (rw e refl) in
    let rest = keep-same p q xs (λ o m. h o (later o x xs m)) in rw (f, rest) refl

module _ {V : Type 0} (json : Json V) where
  -- An event is handed once to every page that watches, and afterwards exactly those that took it watch,
  -- in their order.
  pub publish-pages :
      (takes : ℕ → V → Bool) (event : V) (s : RunState V)
      → ((publish json takes event s).1 ≡ s.observers)
        × ((publish json takes event s).0.observers ≡ keep (λ o. takes o event) s.observers)
  unfolding publish
  publish-pages takes event s = (
    refl,
    keep-same _ _ s.observers (λ o h.
        not_failed (mem o s.observers) _ (takes o event)
          (mem-keep (λ o. not (takes o event)) o s.observers) h),
  )
