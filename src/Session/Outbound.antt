-- ===== src/Session/Outbound.antt =====
-- backend/src/session/outbound.rs: the bounded queue of frames of one session socket. Each function
-- is one critical section of the queue's mutex; a frame's text is the list of its bytes.
pub mod Laws
pub mod Delivery
use shimpz_admin.Prelude.{
  ℕ, ◌+◌, ◌-◌, ite, Bool, true, false, List, [], ◌∷◌, ◌++◌, Option, none, some, Text, Text-discrete,
  Option-discrete, length, ltb, if◌then◌else◌,
}

pub data Refused : Type 0 where
  closed overflow : Refused

-- `Result<(), Refused>`.
pub data Answer : Type 0 where
  ok : Answer
  err : Refused → Answer

pub record Item : Type 0 where
  pub text : Text
  pub topic : Option Text

-- `Outbound`, with what its mutex holds.
pub record Outbound : Type 0 where
  pub limit : ℕ
  pub items : List Item
  pub queued : ℕ
  pub is_closed : Bool

unfoldable pub empty : ℕ → Outbound
empty limit = record { limit = limit; items = []; queued = 0; is_closed = false }

-- The length of the text that `replace_first` replaces.
abbrev pub has_topic : Text → List Item → Bool
has_topic topic [] = false
has_topic topic (item ∷ items) =
    ite (Option-discrete Text-discrete item.topic (some topic)) true (has_topic topic items)

abbrev pub replaced_size : Text → List Item → ℕ
replaced_size topic [] = 0
replaced_size topic (item ∷ items) =
    ite (Option-discrete Text-discrete item.topic (some topic)) (length item.text)
      (replaced_size topic items)

-- The first item of the topic gets the new text.
abbrev pub replace_first : Text → Text → List Item → List Item
replace_first topic text [] = []
replace_first topic text (item ∷ items) =
    ite (Option-discrete Text-discrete item.topic (some topic))
      (record item { text = text } ∷ items) (item ∷ replace_first topic text items)

abbrev pub pushed : Text → Option Text → Outbound → Outbound
pushed text topic o = record o {
  items = o.items ++ record { text = text; topic = topic } ∷ [];
  queued = o.queued + length text;
}

abbrev pub coalesced : Text → Text → Outbound → Outbound
coalesced text topic o = record o {
  items = replace_first topic text o.items;
  queued = o.queued + length text - replaced_size topic o.items;
}

abbrev pub stored : Text → Option Text → Outbound → Outbound
stored text none o = pushed text none o
stored text (some topic) o =
    if has_topic topic o.items then coalesced text topic o else pushed text (some topic) o

-- What the writer hears; the frame stays queued either way.
abbrev pub weighed : Outbound → Outbound × Answer
weighed o = (o, if ltb o.limit o.queued then err overflow else ok)

unfoldable pub put : Text → Option Text → Outbound → Outbound × Answer
put text topic o = if o.is_closed then (o, err closed) else weighed (stored text topic o)

unfoldable pub close : Outbound → Outbound
close o = record o { is_closed = true }

abbrev pub pop : List Item → Outbound → Option (Text × Outbound)
pop [] o = none
pop (item ∷ items) o =
    some (item.text, record o { items = items; queued = o.queued - length item.text })

-- One round of `take`; `none` where it waits.
unfoldable pub take_next : Outbound → Option (Text × Outbound)
take_next o = pop o.items o
