-- ===== src/Team/Order/Cleared.antt =====
-- backend/src/team/order.rs: `clear`. A directory is a list of names with what stands under each.
use shimpz_admin.Prelude.{
  ◌≡◌, refl, sym, subst, Bool, true, false, not, ◌&&◌, List, [], ◌∷◌, ◌++◌, arith, Text,
  Text-discrete, ite, all, if◌then◌else◌, Bool-cases, inl, inr, ◌==◌,
}
use shimpz_admin.Team.Order.{unavailable, Answer, ok, err}

-- Nothing, a regular file of Admin's that can or cannot be removed, another's entry, or an error.
pub data Found : Type 0 where
  nothing : Found
  own : Bool → Found
  foreign : Found
  unreadable : Found

pub record DirEntry : Type 0 where
  pub name : Text
  pub found : Found

-- `unlink_owned`: what stays, and whether it succeeded.
abbrev unlinked : Found → Found × Bool
unlinked nothing = (nothing, true)
unlinked (own true) = (nothing, true)
unlinked (own false) = (own false, false)
unlinked foreign = (foreign, false)
unlinked unreadable = (unreadable, false)

abbrev starts_with : Text → Text → Bool
starts_with [] text = true
starts_with (p ∷ ps) [] = false
starts_with (p ∷ ps) (c ∷ cs) = p == c && starts_with ps cs

-- Is the extension "tmp"? The name has a dot after its first byte, since it starts with the prefix.
abbrev ends_in_tmp : Text → Bool
ends_in_tmp [] = false
ends_in_tmp (c ∷ cs) =
    let rest = ends_in_tmp cs in ite (Text-discrete (c ∷ cs) (46 ∷ 116 ∷ 109 ∷ 112 ∷ [])) true rest

abbrev is_temporary : Text → DirEntry → Bool
is_temporary file_name entry =
    starts_with (46 ∷ file_name ++ 46 ∷ []) entry.name && ends_in_tmp entry.name

-- The directory after the temporary files' turn, and whether every one went.
abbrev clear_temporaries : Text → List DirEntry → List DirEntry × Bool
clear_temporaries file_name [] = ([], true)
clear_temporaries file_name (e ∷ es) =
    let (rest, went) = clear_temporaries file_name es in
    let (left, gone) = unlinked e.found in
    if is_temporary file_name e
    then (record e { found = left } ∷ rest, gone && went)
    else (e ∷ rest, went)

abbrev cleared : Bool → Bool → Answer (Unit {0})
cleared syncs went = if not syncs then err unavailable else if went then ok tt else err unavailable

pub record Cleared : Type 0 where
  pub order : Found
  pub directory : List DirEntry
  pub answer : Answer (Unit {0})

unfoldable pub clear : Bool → Text → Found → List DirEntry → Cleared
clear syncs file_name order directory =
    let (left, gone) = unlinked order in
    let (rest, went) = clear_temporaries file_name directory in
    record { order = left; directory = rest; answer = cleared syncs (gone && went) }

abbrev is_nothing : Found → Bool
is_nothing nothing = true
is_nothing _ = false

abbrev went_from : Text → DirEntry → Bool
went_from file_name e = if is_temporary file_name e then is_nothing e.found else true

unlinked-nothing : (f : Found) → (unlinked f).1 ≡ true → is_nothing (unlinked f).0 ≡ true
unlinked-nothing f h = ground (arith, h)

both : (a b : Bool) → (a && b) ≡ true → (a ≡ true) × (b ≡ true)
both a b h = (ground (arith, h), ground (arith, h))

cleared-ok : (syncs went : Bool) → cleared syncs went ≡ ok tt → (syncs ≡ true) × (went ≡ true)
cleared-ok syncs went h = (ground (arith, h), ground (arith, h))

clear_temporaries-went :
    (file_name : Text) (es : List DirEntry)
    → (clear_temporaries file_name es).1 ≡ true
    → all (went_from file_name) (clear_temporaries file_name es).0 ≡ true
clear_temporaries-went file_name [] h = refl
clear_temporaries-went file_name (e ∷ es) h =
    let (rest, went) = clear_temporaries file_name es in
    let (left, gone) = unlinked e.found in
    let choice : Bool → List DirEntry × Bool =
      λ b. if b then (record e { found = left } ∷ rest, gone && went) else (e ∷ rest, went) in
    elim (Bool-cases (is_temporary file_name e)) [
      | inl t ↦
          let (g, w) = both _ _ (subst (λ b. (choice b).1 ≡ true) t h) in
          subst (λ b. all (went_from file_name) (choice b).0 ≡ true) (sym t)
            (rw (t, unlinked-nothing e.found g) (clear_temporaries-went file_name es w))
      | inr t ↦
          let w = subst (λ b. (choice b).1 ≡ true) t h in
          subst (λ b. all (went_from file_name) (choice b).0 ≡ true) (sym t)
            (rw t (clear_temporaries-went file_name es w))
    ]

-- A clearing that succeeds leaves neither the order's file nor a temporary one, and is durable.
pub clear-ok :
    (syncs : Bool) (file_name : Text) (order : Found) (directory : List DirEntry)
    → (clear syncs file_name order directory).answer ≡ ok tt
    → (syncs ≡ true)
      × (is_nothing (clear syncs file_name order directory).order ≡ true)
      × (all (went_from file_name) (clear syncs file_name order directory).directory ≡ true)
unfolding clear
clear-ok syncs file_name order directory h =
    let (s, w) = cleared-ok syncs _ h in
    let (g, v) = both _ _ w in
    (s, unlinked-nothing order g, clear_temporaries-went file_name directory v)
