-- ===== src/Signin/Recovery/Tests.antt =====
-- Recovery codes at work.
use shimpz_admin.Prelude.{
  ℕ, ◌≡◌, refl, true, [], ◌∷◌, ◌++◌, Option, some, Text, codes, Text-discrete, ℕ_discrete,
}
use shimpz_admin.Prelude.Int.{pos}
use shimpz_admin.Signin.Totp.{null, int, text}
use shimpz_admin.Signin.Recovery.{
  Entry, CodeSet, Candidate, validated, remaining, last_match, mark_at, spend, display, normalized,
}

recovery : Unit {0}
unfolding Text-discrete ℕ_discrete validated remaining last_match mark_at spend display normalized
recovery = tt

abbrev hex : ℕ → Text
hex c =
    48 ∷ 48 ∷ 48 ∷ codes "0000000000"
    ++ codes "0000000000"
    ++ codes "0000000000"
    ++ codes "0000000000"
    ++ codes "0000000000"
    ++ codes "0000000000"
    ++ c ∷ []

abbrev unused : ℕ → Option Entry
unused c = some (record { digest = text (hex c); used_at = null })

abbrev ten : CodeSet
ten = record {
  salt = text (hex 97);
  stored = some (
      unused 48
      ∷ unused 49
      ∷ unused 50
      ∷ unused 51
      ∷ unused 52
      ∷ unused 53
      ∷ unused 54
      ∷ unused 55
      ∷ unused 56
      ∷ unused 57
      ∷ []);
}

abbrev third : Candidate
third = record { salt = hex 97; digest = some (hex 50) }

abbrev nine : CodeSet
nine = record {
  salt = text (hex 97);
  stored = some (
      unused 48
      ∷ unused 49
      ∷ some (record { digest = text (hex 50); used_at = int (pos 1760000000) })
      ∷ unused 51
      ∷ unused 52
      ∷ unused 53
      ∷ unused 54
      ∷ unused 55
      ∷ unused 56
      ∷ unused 57
      ∷ []);
}

ten-validated : validated ten ≡ true
unfolding recovery
ten-validated = refl

-- A code may be typed with spaces in the place of the hyphens.
typed_with_spaces :
    normalized (λ t. t) (text (codes "0123 4567 89ab")) ≡ some (codes "0123456789ab")
unfolding recovery
typed_with_spaces = refl
