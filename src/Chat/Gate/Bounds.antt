-- ===== src/Chat/Gate/Bounds.antt =====
-- The limit, the order of the queue, and what a freed slot leads to.
use shimpz_admin.Prelude.{
  ℕ, ◌+◌, ◌-◌, ◌≤◌, ◌≡◌, ◌⊎◌, ◌↔◌, Bool, true, false, List, [], ◌∷◌, ◌++◌, some, arith, length,
}
use shimpz_admin.Prelude.Int.{pos_part}
use shimpz_admin.Chat.Gate.{
  Waiter, GateState, refused, queue_full, grant, release, acquire, set_limit, leave, rest_begin,
  rest_end, read_begin, read_answer, read_end, limit_or_zero, joined, below, starts, queued, drain,
}
use shimpz_admin.Chat.Gate.Grant.{
  ids, IsDrained, grant-ids, grant_count, grant_bound, grant-IsDrained, grant_limit,
}
use shimpz_admin.Chat.Gate.System.{
  System, Event, admits, step, step_ask, step_abandon, Then, limit_set, ask, answer, stop_asking,
  stop_answered, arrive, resume, abandon, give_back, busy_leave, busy_rest, rest_over, rest_cut,
  come_back,
}

-- A count that stayed or fell, or is within the limit.
abbrev pub IsWithin : ℕ → GateState → Type 0
IsWithin before g = (g.running ≤ before) ⊎ (g.running ≤ pos_part (limit_or_zero g.limit))

grant-IsWithin : (n : ℕ) (g : GateState) → g.running ≤ n → IsWithin n (grant g).0
grant-IsWithin n g h = ground (arith, grant_bound g, grant_limit g)

abandon-IsWithin :
    (s : System) (id : ℕ) → Then (λ t. IsWithin s.gate.running t.gate) (step_abandon id s)
unfolding step_abandon leave release
abandon-IsWithin s id =
    ground (arith, grant-IsWithin s.gate.running (record s.gate { running = s.gate.running - 1 }))

acquire-IsWithin :
    (s : System) (g : GateState) (position : ℕ) (head : Bool)
    → IsWithin g.running (admits s (acquire position head g)).gate
unfolding acquire
acquire-IsWithin s g position head =
    ground (arith, grant-IsWithin g.running (joined position head g))

step-IsWithin : (e : Event) (s : System) → Then (λ t. IsWithin s.gate.running t.gate) (step e s)
unfolding step
step-IsWithin (limit_set l) s =
    unfold set_limit in
    grant-IsWithin s.gate.running (record s.gate { limit = some l }) (omega arith)
step-IsWithin ask s = unfold step_ask read_begin in ground arith
step-IsWithin (answer a) s = unfold read_answer in ground arith
step-IsWithin stop_asking s = unfold read_end in ground arith
step-IsWithin stop_answered s = unfold read_end in ground arith
step-IsWithin (arrive position) s = ground (arith, acquire-IsWithin s s.gate position false)
step-IsWithin (resume id) s = ground arith
step-IsWithin (abandon id) s = abandon-IsWithin s id
step-IsWithin give_back s =
    unfold release in
    ground (arith, grant-IsWithin s.gate.running (record s.gate { running = s.gate.running - 1 }))
step-IsWithin busy_leave s =
    unfold release in
    ground (arith, grant-IsWithin s.gate.running (record s.gate { running = s.gate.running - 1 }))
step-IsWithin busy_rest s = unfold rest_begin in ground arith
step-IsWithin rest_over s = unfold rest_end in ground arith
step-IsWithin rest_cut s =
    unfold rest_end in
    ground (arith, grant-IsWithin s.gate.running (record s.gate { resting = s.gate.resting - 1 }))
step-IsWithin (come_back position) s =
    ground (arith, acquire-IsWithin (record s { returning = s.returning - 1 }) s.gate position true)

-- No event starts an operation beyond the limit: the count of running operations stays or falls, or
-- is within the limit that now holds.
pub step_bound : (e : Event) (s t : System) → step e s ≡ some t → IsWithin s.gate.running t.gate
step_bound e s t h = rw h at (step-IsWithin e s)

-- First in, first out: the waiters that a grant starts are the oldest ones and the others keep their
-- order; each takes one slot; and afterwards nobody waits or no slot is free.
pub grant_fifo :
    (g : GateState)
    → (ids (grant g).1 ++ ids (grant g).0.waiting ≡ ids g.waiting)
      × ((grant g).0.running ≡ g.running + length (grant g).1)
      × IsDrained (grant g).0
grant_fifo g = (grant-ids g, grant_count g, grant-IsDrained g)

-- An operation is refused exactly when it is new, cannot start at once, and 32 operations wait, rest
-- or read the limit; a refusal leaves the gate as it was and tells nobody anything.
pub acquire_refused :
    (position : ℕ) (head : Bool) (g : GateState)
    → (((acquire position head g).0 ≡ refused queue_full)
        ↔ ((head ≡ false) × (starts head g ≡ false) × (32 ≤ queued g)))
      × ((acquire position head g ≡ (refused queue_full, (g, [], [])))
          ↔ ((head ≡ false) × (starts head g ≡ false) × (32 ≤ queued g)))
unfolding acquire
acquire_refused position head g =
    ((λ e. ground arith, λ c. ground arith), (λ e. ground arith, λ c. ground arith))

-- When a holder gives its slot back and fewer others run than the limit lets, the oldest waiter is
-- granted a slot at once.
pub give_back_serves_oldest :
    (s t : System) (w : Waiter) (ws : List Waiter)
    → s.gate.waiting ≡ w ∷ ws
    → below (s.gate.running - 1) (limit_or_zero s.gate.limit) ≡ true
    → step give_back s ≡ some t
    → (later : List ℕ) × (t.granted ≡ s.granted ++ w.id ∷ later)
unfolding step release grant drain
give_back_serves_oldest s t w ws e l h =
    (ids (drain (limit_or_zero s.gate.limit) (s.gate.running - 1 + 1) ws).0, ground arith)
