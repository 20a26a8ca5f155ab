-- ===== src/Signin/Recovery/Typing.antt =====
-- A code that is typed as it was shown.
use shimpz_admin.Prelude.{
  ℕ, ◌+◌, ◌≤◌, ◌≡◌, refl, true, false, not, ◌||◌, [], ◌∷◌, some, arith, ◌==◌, Bool, inl, inr, ltb,
  le→ltb, Bool-cases, Text, length, all, keep,
}
use shimpz_admin.Signin.Totp.{text}
use shimpz_admin.Signin.Recovery.{
  in_alphabet, is_separator, as_code, code_chars, max_input_chars, display, normalized,
}

module _ (p q : ℕ → Bool) (apart : (c : ℕ) → p c ≡ true → q c ≡ true) (hyphen : q 45 ≡ false) where
  keep_self : (code : Text) → all p code ≡ true → keep q code ≡ code
  keep_self [] h = refl
  keep_self (c ∷ code) h = ground (arith, h, keep_self code, apart c)

  keep-display : (code : Text) → all p code ≡ true → keep q (display code) ≡ code
  unfolding display
  keep-display (a ∷ b ∷ c ∷ d ∷ e ∷ rest) h =
      ground (arith, h, hyphen, keep-display (e ∷ rest), apart a, apart b, apart c, apart d)
  keep-display [] h = refl
  keep-display (a ∷ []) h = keep_self (a ∷ []) h
  keep-display (a ∷ b ∷ []) h = keep_self (a ∷ b ∷ []) h
  keep-display (a ∷ b ∷ c ∷ []) h = keep_self (a ∷ b ∷ c ∷ []) h
  keep-display (a ∷ b ∷ c ∷ d ∷ []) h = keep_self (a ∷ b ∷ c ∷ d ∷ []) h

  all_either : (code : Text) → all p code ≡ true → all (λ c. p c || c == 45) code ≡ true
  all_either [] h = refl
  all_either (c ∷ code) h = ground (arith, h, all_either code)

  all-display : (code : Text) → all p code ≡ true → all (λ c. p c || c == 45) (display code) ≡ true
  unfolding display
  all-display (a ∷ b ∷ c ∷ d ∷ e ∷ rest) h = ground (arith, h, all-display (e ∷ rest))
  all-display [] h = refl
  all-display (a ∷ []) h = all_either (a ∷ []) h
  all-display (a ∷ b ∷ []) h = all_either (a ∷ b ∷ []) h
  all-display (a ∷ b ∷ c ∷ []) h = all_either (a ∷ b ∷ c ∷ []) h
  all-display (a ∷ b ∷ c ∷ d ∷ []) h = all_either (a ∷ b ∷ c ∷ d ∷ []) h

length-display-le : (code : Text) → length (display code) ≤ length code + length code
unfolding display
length-display-le (a ∷ b ∷ c ∷ d ∷ e ∷ rest) = omega (arith, length-display-le (e ∷ rest))
length-display-le [] = omega arith
length-display-le (a ∷ []) = omega arith
length-display-le (a ∷ b ∷ []) = omega arith
length-display-le (a ∷ b ∷ c ∷ []) = omega arith
length-display-le (a ∷ b ∷ c ∷ d ∷ []) = omega arith

no_separator : (c : ℕ) → in_alphabet c ≡ true → not (is_separator c) ≡ true
no_separator c h = ground arith

-- What the proof uses of Python's `lower`: it leaves a text of the alphabet and hyphens as it is.
abbrev pub LowerKeeps : (Text → Text) → Type 0
LowerKeeps lower = (t : Text) → all (λ c. in_alphabet c || c == 45) t ≡ true → lower t ≡ t

code_cases :
    (code : Text)
    → as_code code ≡ some code
    → (length code ≡ code_chars) × (all in_alphabet code ≡ true)
code_cases code h = elim (Bool-cases (length code == code_chars)) [
  | inr e ↦ absurd (ground (arith, h, e))
  | inl e ↦ elim (Bool-cases (all in_alphabet code)) [
    | inl f ↦ (ground (arith, e), f)
    | inr f ↦ absurd (ground (arith, h, e, f))
  ]
]

-- A code of twelve characters of the alphabet, typed as it is shown, is read as that code, where
-- `lower` leaves such a text as it is.
pub normalized-display :
    (lower : Text → Text) (code : Text)
    → LowerKeeps lower
    → as_code code ≡ some code
    → normalized lower (text (display code)) ≡ some code
unfolding normalized
normalized-display lower code keeps h =
    let (n, a) = code_cases code h in
    let l = all-display in_alphabet (λ c. not (is_separator c)) no_separator refl code a in
    let k = keep-display in_alphabet (λ c. not (is_separator c)) no_separator refl code a in
    let b : ltb max_input_chars (length (display code)) ≡ false =
      le→ltb max_input_chars (length (display code)) (omega (arith, n, length-display-le code)) in
    rw (b, keeps (display code) l, k) h
