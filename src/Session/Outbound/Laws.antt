-- ===== src/Session/Outbound/Laws.antt =====
-- The queue's byte count, and at most one notice of a topic.
use shimpz_admin.Prelude.{
  ℕ, inl, inr, ap, subst, ◌+◌, ◌-◌, ◌≤◌, ◌≡◌, refl, ite, true, false, List, [], ◌∷◌, ◌++◌, Option,
  none, some, arith, if_pos, if_neg, ◌∙◌, Text, Text-discrete, Option-discrete, length, ltb,
  if◌then◌else◌, Bool-cases,
}
use shimpz_admin.Session.Outbound.{
  Outbound, Item, ok, err, closed, overflow, has_topic, replaced_size, replace_first, put, pop,
  take_next,
}

abbrev pub bytes : List Item → ℕ
bytes [] = 0
bytes (item ∷ items) = length item.text + bytes items

-- No topic stands twice in the queue.
abbrev pub IsUnique : List Item → Type 0
IsUnique [] = Unit {0}
IsUnique (item ∷ items) =
    ((topic : Text) → item.topic ≡ some topic → has_topic topic items ≡ false) × IsUnique items

pub record Inv (o : Outbound) : Type 0 where
  pub counted : o.queued ≡ bytes o.items
  pub unique : IsUnique o.items

bytes-append :
    (is : List Item) (item : Item) → bytes (is ++ item ∷ []) ≡ bytes is + length item.text
bytes-append [] item = omega arith
bytes-append (i ∷ is) item = omega (arith, bytes-append is item)

replaced-le : (t : Text) (is : List Item) → replaced_size t is ≤ bytes is
replaced-le t [] = omega arith
replaced-le t (i ∷ is) = ground (arith, replaced-le t is)

bytes-replace :
    (t text : Text) (is : List Item)
    → has_topic t is ≡ true
    → bytes (replace_first t text is) + replaced_size t is ≡ bytes is + length text
bytes-replace t text [] h = cc
bytes-replace t text (i ∷ is) h = ground (arith, bytes-replace t text is)

has_topic-replace :
    (t u text : Text) (is : List Item) → has_topic u (replace_first t text is) ≡ has_topic u is
has_topic-replace t u text [] = refl
has_topic-replace t u text (i ∷ is) = ground (arith, has_topic-replace t u text is)

has_topic-append :
    (u : Text) (is : List Item) (item : Item)
    → has_topic u is ≡ false
    → has_topic u (is ++ item ∷ [])
      ≡ ite (Option-discrete Text-discrete item.topic (some u)) true false
has_topic-append u [] item h = ground arith
has_topic-append u (i ∷ is) item h = ground (arith, has_topic-append u is item)

replace-IsUnique :
    (t text : Text) (is : List Item) → IsUnique is → IsUnique (replace_first t text is)
replace-IsUnique t text [] h = tt
replace-IsUnique t text (i ∷ is) h = elim (Option-discrete Text-discrete i.topic (some t)) [
  | yes e ↦ rw (if_pos _ e) h
  | no e ↦
      rw (if_neg _ e)
        (λ u f. has_topic-replace t u text is ∙ h.0 u f, replace-IsUnique t text is h.1)
]

push-IsUnique :
    (item : Item) (is : List Item)
    → ((t : Text) → item.topic ≡ some t → has_topic t is ≡ false)
    → IsUnique is
    → IsUnique (is ++ item ∷ [])
push-IsUnique item [] new h = (λ t e. refl, tt)
push-IsUnique item (i ∷ is) new h = (
  λ u e. ground (arith, has_topic-append u is item (h.0 u e), new u),
  push-IsUnique item is (λ u e. ground (arith, new u e)) h.1,
)

put-Inv : (text : Text) (topic : Option Text) (o : Outbound) → Inv o → Inv (put text topic o).0
unfolding put
put-Inv text none o v = elim (Bool-cases o.is_closed) [
  | inl c ↦ rw (c, put) (record { counted = v.counted; unique = v.unique })
  | inr c ↦
      rw (c, put)
        (record {
          counted =
              omega (arith, v.counted, bytes-append o.items (record { text = text; topic = none }));
          unique = push-IsUnique _ o.items (λ t e. cc) v.unique;
        })
]
put-Inv text (some t) o v = elim (Bool-cases o.is_closed) [
  | inl c ↦ rw (c, put) (record { counted = v.counted; unique = v.unique })
  | inr c ↦ elim (Bool-cases (has_topic t o.items)) [
    | inl h ↦
        rw (c, h, put)
          (record {
            counted =
                omega (arith, v.counted, bytes-replace t text o.items h, replaced-le t o.items);
            unique = replace-IsUnique t text o.items v.unique;
          })
    | inr h ↦
        rw (c, h, put)
          (record {
            counted =
                omega
                  (arith, v.counted, bytes-append o.items (record { text = text; topic = some t }));
            unique = push-IsUnique _ o.items (λ u e. ground arith) v.unique;
          })
  ]
]

pop-Inv :
    (is : List Item) (o o' : Outbound) (text : Text)
    → o.items ≡ is
    → Inv o
    → pop is o ≡ some (text, o')
    → Inv o'
pop-Inv [] o o' text e v h = cc
pop-Inv (i ∷ is) o o' text e v h = subst Inv popped (record {
  counted = omega (arith, v.counted, ap bytes e);
  unique = (subst IsUnique e v.unique).1;
})
  where
    popped : record o { items = is; queued = o.queued - length i.text } ≡ o'
    popped = ground arith

take-Inv : (o o' : Outbound) (text : Text) → Inv o → take_next o ≡ some (text, o') → Inv o'
unfolding take_next
take-Inv o o' text v h = pop-Inv o.items o o' text refl v h

put_result :
    (text : Text) (topic : Option Text) (o : Outbound)
    → (put text topic o).1 ≡ (
        if o.is_closed
        then err closed
        else if ltb o.limit (put text topic o).0.queued
        then err overflow
        else ok)
unfolding put
put_result text topic o = elim (Bool-cases o.is_closed) [
  | inl c ↦ simp (c, put)
  | inr c ↦
      elim topic
        as (λ t. (put text t o).1 ≡ (
          if o.is_closed
          then err closed
          else if ltb o.limit (put text t o).0.queued
          then err overflow
          else ok)) [ none ↦ ground arith | some t ↦ ground arith ]
]

-- A frame is refused as closed exactly when the queue is closed, and otherwise as overflowing exactly
-- when the texts that then wait have more bytes than the limit; the byte count stays right, and no
-- topic stands in the queue twice.
pub put_answer :
    (text : Text) (topic : Option Text) (o : Outbound)
    → Inv o
    → ((put text topic o).1 ≡ (
        if o.is_closed
        then err closed
        else if ltb o.limit (bytes (put text topic o).0.items)
        then err overflow
        else ok))
      × Inv (put text topic o).0
put_answer text topic o v =
    (rw (← (put-Inv text topic o v).counted) (put_result text topic o), put-Inv text topic o v)
