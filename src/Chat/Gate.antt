-- ===== src/Chat/Gate.antt =====
-- backend/src/chat/gate/mod.rs: the Space's chat execution gate. Each function is what the code does
-- in one critical section of the gate's mutex. A waiter's callback is its number; what the code
-- tells the callbacks after it unlocks is the list that a function returns, in that order.
pub mod Grant
pub mod System
pub mod Invariant
pub mod Steps
pub mod Arrivals
pub mod Reachable
pub mod Bounds
mod Tests
use shimpz_admin.Prelude.{
  ℕ, ◌+◌, ◌-◌, ite, ℕ_discrete, Option-discrete, Bool, true, false, not, ◌&&◌, ◌||◌, List, [], ◌∷◌,
  ◌++◌, Option, none, some, length, ltb, leb, ◌==◌, if◌then◌else◌,
}
use shimpz_admin.Prelude.Int.{ℤ, pos, negsuc}

-- `MAX_WAITING`.
abbrev pub max_waiting : ℕ
max_waiting = 32

pub data Refused : Type 0 where
  queue_full limit_unavailable authority_ended : Refused

pub record Waiter : Type 0 where
  pub id : ℕ
  pub position : ℕ
  pub place : Option ℕ

-- `limit_read` says whether a read of the limit is under way.
pub record GateState : Type 0 where
  pub limit : Option ℤ
  pub running : ℕ
  pub waiting : List Waiter
  pub resting : ℕ
  pub reading : ℕ
  pub limit_read : Bool
  pub next : ℕ

unfoldable pub initial : GateState
initial = record {
  limit = none;
  running = 0;
  waiting = [];
  resting = 0;
  reading = 0;
  limit_read = false;
  next = 0;
}

abbrev pub Told : Type 0
Told = List (ℕ × Option ℕ)

-- The new state, the waiters that were granted a slot, oldest first, and what is told.
abbrev pub Granting : Type 0
Granting = GateState × List Waiter × Told

abbrev pub queued : GateState → ℕ
queued s = length s.waiting + s.resting + s.reading

abbrev pub limit_or_zero : Option ℤ → ℤ
limit_or_zero none = pos 0
limit_or_zero (some l) = l

-- `running < limit`.
abbrev pub below : ℕ → ℤ → Bool
below running (pos l) = ltb running l
below running (negsuc l) = false

-- The loop of `GateState::grant`: the granted waiters, those left, and the new count.
unfoldable pub drain : ℤ → ℕ → List Waiter → List Waiter × List Waiter × ℕ
drain limit running [] = ([], [], running)
drain limit running (w ∷ ws) =
    let rest = drain limit (running + 1) ws in
    if below running limit then (w ∷ rest.0, rest.1, rest.2) else ([], w ∷ ws, running)

-- The loop of `GateState::tell`, from the index of the first waiter.
unfoldable pub tell_from : ℕ → List Waiter → List Waiter × Told
tell_from index [] = ([], [])
tell_from index (w ∷ ws) =
    let (placed, told) = tell_from (index + 1) ws in
    ite (Option-discrete ℕ_discrete w.place (some (index + 1))) (w ∷ placed, told)
      (record w { place = some (index + 1) } ∷ placed, (w.position, some (index + 1)) ∷ told)

abbrev tell : GateState → GateState × Told
tell s = let (placed, told) = tell_from 0 s.waiting in (record s { waiting = placed }, told)

-- The places are told anew only if a waiter left.
abbrev settle : GateState → List Waiter × List Waiter × ℕ → Granting
settle s ([], left, running) = (s, [], [])
settle s (w ∷ ws, left, running) =
    let (s', told) = tell (record s { running = running; waiting = left }) in (s', w ∷ ws, told)

unfoldable pub grant : GateState → Granting
grant s = settle s (drain (limit_or_zero s.limit) s.running s.waiting)

unfoldable pub release : GateState → Granting
release s = grant (record s { running = s.running - 1 })

-- `Gate::set_limit`.
unfoldable pub set_limit : ℤ → GateState → Granting
set_limit l s = grant (record s { limit = some l })

pub data Admission : Type 0 where
  entered : Admission
  waits : ℕ → Admission
  refused : Refused → Admission

-- May the operation start at once?
abbrev pub starts : Bool → GateState → Bool
starts head s =
    length s.waiting == 0 && (s.resting == 0 || head) && below s.running (limit_or_zero s.limit)

abbrev pub enqueue : Bool → Waiter → List Waiter → List Waiter
enqueue true w ws = w ∷ ws
enqueue false w ws = ws ++ w ∷ []

abbrev pub joined : ℕ → Bool → GateState → GateState
joined position head s = record s { next = s.next + 1; waiting = enqueue head arrival s.waiting }
  where
    arrival : Waiter
    arrival = record { id = s.next + 1; position = position; place = none }

abbrev pub join : ℕ → Granting → Admission × Granting
join id (s, granted, told) = let (s', told') = tell s in (waits id, (s', granted, told ++ told'))

-- `Gate::acquire` up to its wait.
unfoldable pub acquire : ℕ → Bool → GateState → Admission × Granting
acquire position head s =
    if starts head s
    then (entered, (record s { running = s.running + 1 }, [], (position, none) ∷ []))
    else if not head && leb max_waiting (queued s)
    then (refused queue_full, (s, [], []))
    else let s' = joined position head s in
      join (s.next + 1) (if s.resting == 0 then grant s' else (s', [], []))

abbrev pub waits_for : ℕ → List Waiter → Bool
waits_for id [] = false
waits_for id (w ∷ ws) = w.id == id || waits_for id ws

abbrev pub remove_waiter : ℕ → List Waiter → List Waiter
remove_waiter id [] = []
remove_waiter id (w ∷ ws) = if w.id == id then ws else w ∷ remove_waiter id ws

abbrev told_alone : GateState × Told → Granting
told_alone (s, told) = (s, [], told)

-- `WaitGuard::drop`, armed.
unfoldable pub leave : ℕ → GateState → Granting
leave id s =
    if waits_for id s.waiting
    then told_alone (tell (record s { waiting = remove_waiter id s.waiting }))
    else release s

-- `Held::busy` counts the operation as resting; `Resting::drop` ends its rest.
unfoldable pub rest_begin : GateState → GateState
rest_begin s = record s { resting = s.resting + 1 }

unfoldable pub rest_end : Bool → GateState → Granting
rest_end cut_short s =
    let s' = record s { resting = s.resting - 1 } in if cut_short then grant s' else (s', [], [])

-- `Gate::read_limit` up to its wait: `none` if the queue is full.
unfoldable pub read_begin : GateState → Option GateState
read_begin s =
    if leb max_waiting (queued s)
    then none
    else some (record s { reading = s.reading + 1; limit_read = true })

abbrev learn : Option ℤ → Option ℤ → Option ℤ
learn (some l) none = some l
learn answer known = known

-- The task that `Gate::read_limit` spawns, once Team answered.
unfoldable pub read_answer : Option ℤ → GateState → GateState
read_answer answer s = record s { limit_read = false; limit = learn answer s.limit }

-- `Reading::drop`.
unfoldable pub read_end : GateState → GateState
read_end s = record s { reading = s.reading - 1 }
