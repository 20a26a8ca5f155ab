-- ===== src/Chat/Gate/Tests.antt =====
-- The gate at work: a limit of one, an operation that runs, one that waits, and one that comes back.
use shimpz_admin.Prelude.{
  ℕ, ◌≡◌, refl, false, List, [], ◌∷◌, ◌++◌, Option, none, some, ℕ_discrete, Option-discrete,
}
use shimpz_admin.Prelude.Int.{pos}
use shimpz_admin.Chat.Gate.{
  Waiter, GateState, refused, queue_full, initial, grant, acquire, drain, tell_from, release,
  set_limit, leave, rest_begin, rest_end, read_begin, read_answer, read_end,
}
use shimpz_admin.Chat.Gate.Grant.{ids}
use shimpz_admin.Chat.Gate.System.{
  System, Event, start, step, run, ask, answer, stop_answered, arrive, give_back, busy_leave,
  busy_rest, rest_over, come_back,
}
use shimpz_admin.Chat.Gate.Invariant.{Inv}
use shimpz_admin.Chat.Gate.Reachable.{run-Inv}
use shimpz_admin.Chat.Gate.Bounds.{IsWithin, step_bound, give_back_serves_oldest}

-- All that a run of the gate calls.
gate : Unit {0}
unfolding run step initial grant acquire drain tell_from release set_limit leave rest_begin rest_end
    read_begin read_answer read_end ℕ_discrete Option-discrete
gate = tt

abbrev or_start : Option System → System
or_start none = start
or_start (some s) = s

-- The limit is read, one operation enters and two wait.
abbrev crowd : List Event
crowd = ask ∷ answer (some (pos 1)) ∷ stop_answered ∷ arrive 7 ∷ arrive 8 ∷ arrive 9 ∷ []

-- The first finds the Space busy, rests, and comes back to the head of the queue.
abbrev comeback : List Event
comeback = busy_leave ∷ busy_rest ∷ rest_over ∷ come_back 7 ∷ []

abbrev crowded : System
crowded = or_start (run crowd start)

waiting_ids : ids crowded.gate.waiting ≡ 1 ∷ 2 ∷ []
unfolding gate
waiting_ids = refl

comeback-ids : ids (or_start (run comeback crowded)).gate.waiting ≡ 3 ∷ 2 ∷ []
unfolding gate
comeback-ids = refl

run-Inv_example : Inv (or_start (run (crowd ++ comeback) start))
unfolding gate
run-Inv_example = run-Inv (crowd ++ comeback) (or_start (run (crowd ++ comeback) start)) refl

step_bound_example : IsWithin crowded.gate.running (or_start (step give_back crowded)).gate
unfolding gate
step_bound_example = step_bound give_back crowded (or_start (step give_back crowded)) refl

abbrev opened : GateState
opened = record crowded.gate { limit = some (pos 2) }

abbrev full : GateState
full = record crowded.gate { resting = 30 }

full_refuses : (acquire 5 false full).0 ≡ refused queue_full
unfolding gate
full_refuses = refl

abbrev first : Waiter
first = record { id = 1; position = 8; place = some 1 }

abbrev second : Waiter
second = record { id = 2; position = 9; place = some 2 }

give_back_serves_oldest_example :
    (later : List ℕ) × ((or_start (step give_back crowded)).granted ≡ 1 ∷ later)
unfolding gate
give_back_serves_oldest_example =
    give_back_serves_oldest crowded (or_start (step give_back crowded)) first (second ∷ []) refl
      refl refl
