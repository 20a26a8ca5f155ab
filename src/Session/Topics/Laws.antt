-- ===== src/Session/Topics/Laws.antt =====
-- How revisions advance, and who hears of it.
use shimpz_admin.Prelude.{
  ℕ, suc, ◌+◌, ◌%◌, ◌^◌, ◌<◌, ◌≡◌, refl, subst, sym, ite, Bool, true, List, [], ◌∷◌, arith, Text,
  Text-discrete, if◌then◌else◌,
}
use shimpz_admin.Prelude.Table.{lookup, lookup-insert}
use shimpz_admin.Session.Topics.{Topics, new, revision, advanced, changed}

revision-new : (topic : Text) → revision topic new ≡ 0
unfolding revision new lookup
revision-new topic = refl

-- How often a topic is named.
abbrev pub count : Text → List Text → ℕ
count topic [] = 0
count topic (named ∷ topics) =
    ite (Text-discrete named topic) (suc (count topic topics)) (count topic topics)

module _ (is_topic : Text → Bool) where
  -- Any changes, one after the other.
  unfoldable pub changes : List Text → Topics → Topics
  changes [] t = t
  changes (topic ∷ topics) t = changes topics (changed is_topic topic t).0

  -- A change of a name in the grammar advances that topic's revision by one, and no other one; it
  -- answers the new revision. Any other name changes nothing and
  -- is answered 0.
  pub changed_lem :
      (topic named : Text) (t : Topics)
      → (revision topic (changed is_topic named t).0 ≡ (
          if is_topic named
          then ite (Text-discrete named topic) ((revision named t + 1) % 2 ^ 64) (revision topic t)
          else revision topic t))
        × ((changed is_topic named t).1
            ≡ (if is_topic named then revision named (changed is_topic named t).0 else 0))
  unfolding changed revision
  changed_lem topic named t = ground (
    lookup-insert Text-discrete named named (advanced named t) t.revisions,
    arith,
    lookup-insert Text-discrete topic named (advanced named t) t.revisions,
  )

  own :
      (topic named : Text) (t : Topics)
      → is_topic topic ≡ true
      → named ≡ topic
      → revision topic (changed is_topic named t).0 ≡ advanced topic t
  own topic named t g same =
      subst (λ x. revision topic (changed is_topic x t).0 ≡ advanced topic t) (sym same)
        (ground (arith, (changed_lem topic topic t).0, g))

  count-from :
      (topic : Text) (topics : List Text) (t : Topics)
      → is_topic topic ≡ true
      → revision topic t + count topic topics < 2 ^ 64
      → revision topic (changes topics t) ≡ revision topic t + count topic topics
  unfolding changes
  count-from topic [] t g b = omega arith
  count-from topic (named ∷ topics) t g b =
      let h = count-from topic topics (changed is_topic named t).0 g in
      elim (Text-discrete named topic) [
        | yes same ↦ let e = own topic named t g same in ground (arith, same, b, e, h)
        | no other ↦ ground (arith, other, b, (changed_lem topic named t).0, h)
      ]

  -- After fewer than 2 ^ 64 changes of a topic in the grammar, among any others, its revision is how
  -- often it changed.
  pub revision-changes :
      (topic : Text) (topics : List Text)
      → is_topic topic ≡ true
      → count topic topics < 2 ^ 64
      → revision topic (changes topics new) ≡ count topic topics
  revision-changes topic topics g b =
      let z = revision-new topic in ground (arith, z, b, count-from topic topics new g)
