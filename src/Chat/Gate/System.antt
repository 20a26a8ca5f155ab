-- ===== src/Chat/Gate/System.antt =====
-- The operations that use the gate, each at one point of `Gate::slot`, `Held::busy` and the drops of
-- `Held`, `WaitGuard`, `Resting` and `Reading`. An event is one critical section: what runs between
-- two locks is free to interleave. A wait that is cancelled is its guard's drop.
use shimpz_admin.Prelude.{
  ℕ, ◌+◌, ◌-◌, Bool, true, false, ◌||◌, List, [], ◌∷◌, ◌++◌, Option, none, some, ltb, ◌==◌,
  if◌then◌else◌,
}
use shimpz_admin.Prelude.Int.{ℤ}
use shimpz_admin.Chat.Gate.{
  GateState, Granting, Admission, entered, waits, refused, initial, release, set_limit, acquire,
  waits_for, leave, rest_begin, rest_end, read_begin, read_answer, read_end,
}
use shimpz_admin.Chat.Gate.Grant.{ids}

-- `granted`: granted a slot, not yet resumed. `holders`: in possession of a `Held` slot. `leaving`:
-- between the two locks at the start of `Held::busy`. `resting`: asleep in it. `returning`: awake,
-- about to take a slot again. `asking`: waiting for the answer of the read under way. `answered`:
-- that answer has come.
pub record System : Type 0 where
  pub gate : GateState
  pub granted : List ℕ
  pub holders : ℕ
  pub leaving : ℕ
  pub resting : ℕ
  pub returning : ℕ
  pub asking : ℕ
  pub answered : ℕ

pub data Event : Type 0 where
  limit_set : ℤ → Event
  ask : Event
  answer : Option ℤ → Event
  stop_asking stop_answered : Event
  arrive : ℕ → Event
  resume abandon : ℕ → Event
  give_back : Event
  busy_leave busy_rest : Event
  rest_over rest_cut : Event
  come_back : ℕ → Event

abbrev pub start : System
start = record {
  gate = initial;
  granted = [];
  holders = 0;
  leaving = 0;
  resting = 0;
  returning = 0;
  asking = 0;
  answered = 0;
}

abbrev pub holds : ℕ → List ℕ → Bool
holds i [] = false
holds i (j ∷ js) = j == i || holds i js

abbrev pub without : ℕ → List ℕ → List ℕ
without i [] = []
without i (j ∷ js) = if j == i then js else j ∷ without i js

-- The gate's answer, taken into the system: the granted waiters can resume.
abbrev pub grants : System → Granting → System
grants s (g, ws, told) = record s { gate = g; granted = s.granted ++ ids ws }

abbrev pub admits : System → Admission × Granting → System
admits s (entered, (g, ws, told)) = record s {
  gate = g;
  granted = s.granted ++ ids ws;
  holders = s.holders + 1;
}
admits s (waits id, r) = grants s r
admits s (refused e, r) = grants s r

abbrev pub is_known : Option ℤ → Bool
is_known none = false
is_known (some l) = true

abbrev pub when : Bool → System → Option System
when b s = if b then some s else none

unfoldable pub step_ask : System → Option GateState → Option System
step_ask s none = some s
step_ask s (some g) = some (record s { gate = g; asking = s.asking + 1 })

-- A guard that drops finds its waiter in the queue, or gives back the slot it was granted.
unfoldable pub step_abandon : ℕ → System → Option System
step_abandon id s =
    if waits_for id s.gate.waiting
    then some (grants s (leave id s.gate))
    else when (holds id s.granted)
        (grants (record s { granted = without id s.granted }) (leave id s.gate))

-- `none`: the event cannot happen in this state.
unfoldable pub step : Event → System → Option System
unfolding step_ask step_abandon
step (limit_set l) s = some (grants s (set_limit l s.gate))
step ask s = step_ask s (read_begin s.gate)
step (answer a) s =
    when s.gate.limit_read
      (record s { gate = read_answer a s.gate; asking = 0; answered = s.answered + s.asking })
step stop_asking s =
    when (ltb 0 s.asking) (record s { gate = read_end s.gate; asking = s.asking - 1 })
step stop_answered s =
    when (ltb 0 s.answered) (record s { gate = read_end s.gate; answered = s.answered - 1 })
step (arrive position) s = when (is_known s.gate.limit) (admits s (acquire position false s.gate))
step (resume id) s =
    when (holds id s.granted) (record s { granted = without id s.granted; holders = s.holders + 1 })
step (abandon id) s = step_abandon id s
step give_back s =
    when (ltb 0 s.holders) (grants (record s { holders = s.holders - 1 }) (release s.gate))
step busy_leave s =
    when (ltb 0 s.holders)
      (grants (record s { holders = s.holders - 1; leaving = s.leaving + 1 }) (release s.gate))
step busy_rest s =
    when (ltb 0 s.leaving)
      (record s { gate = rest_begin s.gate; leaving = s.leaving - 1; resting = s.resting + 1 })
step rest_over s = when (ltb 0 s.resting) (
    grants (record s { resting = s.resting - 1; returning = s.returning + 1 })
      (rest_end false s.gate))
step rest_cut s =
    when (ltb 0 s.resting) (grants (record s { resting = s.resting - 1 }) (rest_end true s.gate))
step (come_back position) s =
    when (ltb 0 s.returning)
      (admits (record s { returning = s.returning - 1 }) (acquire position true s.gate))

-- What an event leads to, if it can happen.
abbrev pub Then : (System → Type 0) → Option System → Type 0
Then P none = Unit {0}
Then P (some t) = P t

unfoldable pub run : List Event → System → Option System
run [] s = some s
run (e ∷ es) s = elim (step e s) [ none ↦ none | some t ↦ run es t ]
