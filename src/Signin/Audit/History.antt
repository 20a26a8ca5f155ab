-- ===== src/Signin/Audit/History.antt =====
-- The sign-in before the reader's own, and a journal that failed.
use shimpz_admin.Prelude.{
  ℕ, suc, ◌+◌, ◌-◌, ◌≡◌, refl, sym, ap, ◌∙◌, Bool, true, false, List, [], ◌∷◌, ◌++◌, append_assoc,
  Option, some, arith, Text, length, length-append, get_elem?, keep, Bool-cases, inl, inr,
}
use shimpz_admin.Prelude.Int.{ℤ}
use shimpz_admin.Time.Texts.{utc}
use shimpz_admin.Signin.Audit.{
  Entry, is_failure, is_past_sign_in, indices, last_two, drop, take, seen, between, history_of,
  SignInHistory, Effects, Audit, record_line,
}

indices-none : (p : Entry → Bool) (n : ℕ) (es : List Entry) → keep p es ≡ [] → indices p n es ≡ []
indices-none p n [] h = refl
indices-none p n (e ∷ es) h = elim (Bool-cases (p e)) [
  | inl f ↦ ground (arith, f, h)
  | inr f ↦ let k : keep p es ≡ [] = ground (arith, f, h) in rw (f) (indices-none p (n + 1) es k)
]

indices-append :
    (p : Entry → Bool) (n : ℕ) (xs ys : List Entry)
    → indices p n (xs ++ ys) ≡ indices p n xs ++ indices p (n + length xs) ys
indices-append p n [] ys = let e : n ≡ n + 0 = omega arith in ap (λ k. indices p k ys) e
indices-append p n (x ∷ xs) ys =
    let e : n + 1 + length xs ≡ n + suc (length xs) = omega arith in
    let rest =
      indices-append p (n + 1) xs ys ∙ ap (λ k. indices p (n + 1) xs ++ indices p k ys) e in
    elim (Bool-cases (p x)) [ inl f ↦ rw (f) (ap (λ l. n ∷ l) rest) | inr f ↦ rw (f) rest ]

last_two-append : (is : List ℕ) (i j : ℕ) → last_two (is ++ i ∷ j ∷ []) ≡ some (i, j)
last_two-append [] i j = refl
last_two-append (a ∷ []) i j = refl
last_two-append (a ∷ b ∷ []) i j = refl
last_two-append (a ∷ b ∷ c ∷ is) i j = last_two-append (b ∷ c ∷ is) i j

get_elem?-middle : (xs ys : List Entry) (e : Entry) → get_elem? (xs ++ e ∷ ys) (length xs) ≡ some e
get_elem?-middle [] ys e = refl
get_elem?-middle (x ∷ xs) ys e = get_elem?-middle xs ys e

drop-prefix : (xs ys : List Entry) → drop (length xs) (xs ++ ys) ≡ ys
drop-prefix [] [] = refl
drop-prefix [] (y ∷ ys) = refl
drop-prefix (x ∷ xs) ys = drop-prefix xs ys

take-prefix : (xs ys : List Entry) → take (length xs) (xs ++ ys) ≡ xs
take-prefix [] [] = refl
take-prefix [] (y ∷ ys) = refl
take-prefix (x ∷ xs) ys = ap (λ l. x ∷ l) (take-prefix xs ys)

indices-two :
    (p : Entry → Bool) (before middle after : List Entry) (previous current : Entry)
    → p previous ≡ true
    → p current ≡ true
    → keep p middle ≡ []
    → keep p after ≡ []
    → last_two (indices p 0 (before ++ previous ∷ (middle ++ current ∷ after)))
      ≡ some (length before, length before + 1 + length middle)
indices-two p before middle after previous current hp hc hm ha =
    let i = length before in
    let j = i + 1 + length middle in
    let z : 0 + i ≡ i = omega arith in
    let rest : indices p (i + 1) (middle ++ current ∷ after) ≡ j ∷ [] =
      indices-append p (i + 1) middle (current ∷ after)
      ∙ ap (λ l. l ++ indices p j (current ∷ after)) (indices-none p (i + 1) middle hm)
      ∙ rw hc (ap (λ l. j ∷ l) (indices-none p (j + 1) after ha)) in
    let last : indices p i (previous ∷ (middle ++ current ∷ after)) ≡ i ∷ j ∷ [] =
      rw hp (ap (λ l. i ∷ l) rest) in
    ap last_two (
      indices-append p 0 before (previous ∷ (middle ++ current ∷ after))
      ∙ ap (λ k. indices p 0 before ++ indices p k (previous ∷ (middle ++ current ∷ after))) z
      ∙ ap (λ l. indices p 0 before ++ l) last)
    ∙ last_two-append (indices p 0 before) i j

middle_lem :
    (before middle after : List Entry) (previous current : Entry)
    → take
        (length before + 1 + length middle - (length before + 1))
        (drop (length before + 1) (before ++ previous ∷ (middle ++ current ∷ after)))
      ≡ middle
middle_lem before middle after previous current =
    let rest = middle ++ current ∷ after in
    let n : length before + 1 ≡ length (before ++ previous ∷ []) =
      omega (arith, length-append before (previous ∷ [])) in
    let m : length before + 1 + length middle - (length before + 1) ≡ length middle = omega arith in
    ap (λ k. take k (drop (length before + 1) (before ++ previous ∷ rest))) m
    ∙ ap (λ k. take (length middle) (drop k (before ++ previous ∷ rest))) n
    ∙ ap (λ l. take (length middle) (drop (length (before ++ previous ∷ [])) l))
        (sym (append_assoc before (previous ∷ []) rest))
    ∙ ap (take (length middle)) (drop-prefix (before ++ previous ∷ []) rest)
    ∙ take-prefix middle (current ∷ after)

abbrev record_of : Option (Text × Option Text) → ℕ → SignInHistory
record_of p n = record { previous = p; failures_since = n }

history-same :
    (p q : Option (Text × Option Text)) (m n : ℕ) → p ≡ q → m ≡ n → record_of p m ≡ record_of q n
history-same p q m n h k = ap (λ p. record_of p m) h ∙ ap (record_of q) k

-- Where the last sign-in up to a time is an entry, and the sign-in before it another one, the history
-- names the moment and the origin of that other one, and counts the refused attempts between the two.
pub history_of-between :
    (signed_in_at : ℤ) (before middle after : List Entry) (previous current : Entry)
    → is_past_sign_in signed_in_at previous ≡ true
    → is_past_sign_in signed_in_at current ≡ true
    → keep (is_past_sign_in signed_in_at) middle ≡ []
    → keep (is_past_sign_in signed_in_at) after ≡ []
    → history_of signed_in_at (before ++ previous ∷ (middle ++ current ∷ after)) ≡ record {
      previous = some (utc previous.moment, previous.origin);
      failures_since = length (keep (λ e. is_failure e.event) middle);
    }
unfolding history_of
history_of-between signed_in_at before middle after previous current hp hc hm ha =
    let es = before ++ previous ∷ (middle ++ current ∷ after) in
    ap (between es)
      (indices-two (is_past_sign_in signed_in_at) before middle after previous current hp hc hm ha)
    ∙ history-same _ _ _ _ (ap seen (get_elem?-middle before (middle ++ current ∷ after) previous))
        (ap (λ l. length (keep (λ e. is_failure e.event) l))
          (middle_lem before middle after previous current))

-- The journal after a number of events.
abbrev pub record_all : List (Effects × Text) → Audit → Audit
record_all [] a = a
record_all ((f, line) ∷ rest) a = record_all rest (record_line f line a).0

stays_failed : (rest : List (Effects × Text)) (a : Audit) → a.failed ≡ true → record_all rest a ≡ a
unfolding record_line
stays_failed [] a h = refl
stays_failed ((f, line) ∷ rest) a h =
    let e : (record_line f line a).0 ≡ a = rw h refl in
    ap (record_all rest) e ∙ stays_failed rest a h

now_failed :
    (f : Effects) (line : Text) (a : Audit)
    → (record_line f line a).1 ≡ false
    → (record_line f line a).0.failed ≡ true
unfolding record_line
now_failed f line a h = ground (arith, h)

none_recorded :
    (f : Effects) (line : Text) (a : Audit) → a.failed ≡ true → (record_line f line a).1 ≡ false
unfolding record_line
none_recorded f line a h = rw h refl

-- Once an event could not be recorded, none is: whatever the disk would do, every later one is refused
-- and leaves the disk as it is.
pub record_line-failed :
    (f g : Effects) (line later : Text) (a : Audit) (rest : List (Effects × Text))
    → (record_line f line a).1 ≡ false
    → ((record_line g later (record_all rest (record_line f line a).0)).1 ≡ false)
      × (record_all rest (record_line f line a).0 ≡ (record_line f line a).0)
record_line-failed f g line later a rest h =
    let b = (record_line f line a).0 in
    let e = stays_failed rest b (now_failed f line a h) in
    (ap (λ c. (record_line g later c).1) e ∙ none_recorded g later b (now_failed f line a h), e)
