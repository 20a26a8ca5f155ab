-- ===== src/Session/Outbound/Delivery.antt =====
-- What the writer of a socket takes from its queue, against what was put there.
use shimpz_admin.Prelude.{
  ℕ, ◌≡◌, refl, ite, Bool, true, false, List, [], ◌∷◌, ◌++◌, append_assoc, append-nil, Option, none,
  some, arith, Text, Text-discrete, Option-discrete,
}
use shimpz_admin.Session.Outbound.{
  Outbound, Item, empty, has_topic, replace_first, put, close, take_next, pop,
}

pub data Event : Type 0 where
  puts : Text → Option Text → Event
  closes takes : Event

-- A queue with the items that were taken from it and the frames without a topic that it accepted.
pub record Trace : Type 0 where
  pub queue : Outbound
  pub taken : List Item
  pub accepted : List Text

abbrev front : List Item → List Item
front [] = []
front (item ∷ items) = item ∷ []

abbrev queue_after : Outbound → Option (Text × Outbound) → Outbound
queue_after o none = o
queue_after o (some (text, o')) = o'

abbrev accepts : Bool → Text → Option Text → List Text
accepts true text topic = []
accepts false text none = text ∷ []
accepts false text (some topic) = []

unfoldable pub step : Event → Trace → Trace
step (puts text topic) s = record {
  queue = (put text topic s.queue).0;
  taken = s.taken;
  accepted = s.accepted ++ accepts s.queue.is_closed text topic;
}
step closes s = record s { queue = close s.queue }
step takes s = record s {
  queue = queue_after s.queue (take_next s.queue);
  taken = s.taken ++ front s.queue.items;
}

unfoldable pub run : List Event → Trace → Trace
run [] s = s
run (e ∷ es) s = run es (step e s)

abbrev pub fresh : ℕ → Trace
fresh limit = record { queue = empty limit; taken = []; accepted = [] }

-- The texts of the items with no topic: results and chat frames.
abbrev pub plain : List Item → List Text
plain [] = []
plain (item ∷ items) =
    let rest = plain items in elim item.topic [ none ↦ item.text ∷ rest | some topic ↦ rest ]

plain-append : (is js : List Item) → plain (is ++ js) ≡ plain is ++ plain js
plain-append [] js = refl
plain-append (i ∷ is) js = ground (arith, plain-append is js)

plain-replace : (t text : Text) (is : List Item) → plain (replace_first t text is) ≡ plain is
plain-replace t text [] = refl
plain-replace t text (i ∷ is) = ground (arith, plain-replace t text is)

plain-put :
    (text : Text) (topic : Option Text) (o : Outbound)
    → plain (put text topic o).0.items ≡ plain o.items ++ accepts o.is_closed text topic
unfolding put
plain-put text none o = ground (
  arith,
  plain-append o.items (record { text = text; topic = none } ∷ []),
  append-nil (plain o.items),
)
plain-put text (some t) o = ground (
  arith,
  plain-append o.items (record { text = text; topic = some t } ∷ []),
  plain-replace t text o.items,
  append-nil (plain o.items),
)

plain-take :
    (is : List Item) (o : Outbound)
    → o.items ≡ is
    → plain (front is) ++ plain (queue_after o (pop is o)).items ≡ plain is
plain-take [] o e = ground arith
plain-take (i ∷ is) o e = ground arith

abbrev IsKept : Trace → Type 0
IsKept s = plain s.taken ++ plain s.queue.items ≡ s.accepted

step-IsKept : (e : Event) (s : Trace) → IsKept s → IsKept (step e s)
unfolding step take_next close
step-IsKept (puts text topic) s h = ground (
  arith,
  plain-put text topic s.queue,
  append_assoc (plain s.taken) (plain s.queue.items) (accepts s.queue.is_closed text topic),
)
step-IsKept closes s h = h
step-IsKept takes s h = ground (
  arith,
  plain-append s.taken (front s.queue.items),
  plain-take s.queue.items s.queue refl,
  append_assoc (plain s.taken) (plain (front s.queue.items))
      (plain (queue_after s.queue (pop s.queue.items s.queue)).items),
)

run-IsKept : (es : List Event) (s : Trace) → IsKept s → IsKept (run es s)
unfolding run
run-IsKept [] s h = h
run-IsKept (e ∷ es) s h = run-IsKept es (step e s) (step-IsKept e s h)

-- Results and chat frames are never dropped, doubled or reordered: whatever is put, closed and taken,
-- those taken so far followed by those that still wait are those accepted.
pub run_keeps :
    (limit : ℕ) (es : List Event)
    → plain (run es (fresh limit)).taken ++ plain (run es (fresh limit)).queue.items
      ≡ (run es (fresh limit)).accepted
unfolding empty
run_keeps limit es = run-IsKept es (fresh limit) refl

-- The text that waits under a topic.
abbrev pub notice : Text → List Item → Option Text
notice t [] = none
notice t (item ∷ items) =
    ite (Option-discrete Text-discrete item.topic (some t)) (some item.text) (notice t items)

notice-replace :
    (t text : Text) (is : List Item)
    → has_topic t is ≡ true
    → notice t (replace_first t text is) ≡ some text
notice-replace t text [] h = cc
notice-replace t text (i ∷ is) h = ground (arith, notice-replace t text is)

notice-append :
    (t text : Text) (is : List Item)
    → has_topic t is ≡ false
    → notice t (is ++ record { text = text; topic = some t } ∷ []) ≡ some text
notice-append t text [] h = ground arith
notice-append t text (i ∷ is) h = ground (arith, notice-append t text is)

-- A change notice that an open queue takes is the one that waits under its topic: an older one is
-- replaced.
pub notice-put :
    (text topic : Text) (o : Outbound)
    → o.is_closed ≡ false
    → notice topic (put text (some topic) o).0.items ≡ some text
unfolding put
notice-put text topic o c =
    ground (arith, notice-replace topic text o.items, notice-append topic text o.items)
