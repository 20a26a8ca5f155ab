-- ===== src/Chat/Run/Tests.antt =====
-- A run whose JSON values are numbers: below 100 they are progress events of that sequence, and above it
-- errors.
use shimpz_admin.Prelude.{
  ℕ, ◌≡◌, refl, Bool, true, false, List, [], ◌∷◌, some, length, keep, Option-discrete,
  Text-discrete, ltb, ◌==◌, if◌then◌else◌,
}
use shimpz_admin.Chat.Run.{
  Json, Queued, RunState, fresh_state, latest, progress, error, publish, recorded, submit, attach,
  receive, end,
}
use shimpz_admin.Chat.Run.Live.{
  IsEnd, is_progress, publish_all, since_first, live-publish_all_fresh,
}
use shimpz_admin.Chat.Run.Traces.{Event, submits, receives, ends, attaches, fresh, step, run_events}
use shimpz_admin.Chat.Run.Frames.{IsTrace, run_events-IsTrace}
use shimpz_admin.Chat.Run.Ending.{run_events-ended}

abbrev numbers : Json ℕ
numbers = record {
  kind = λ n. some (if ltb n 100 then progress else error);
  seq = λ n. some n;
  int = λ n. n;
  same = λ a b. a == b;
  running = λ s. 100;
  ending_error = 409;
}

-- Page 3 has gone.
abbrev all_but_3 : ℕ → ℕ → Bool
all_but_3 o event = if o == 3 then false else true

abbrev watched_state : RunState ℕ
watched_state = record fresh_state { observers = 2 ∷ 3 ∷ 4 ∷ [] }

abbrev frame_of : ℕ → Queued ℕ
frame_of n = record { frame = n; authority = 7; observer = some 2 }

abbrev sent : Event ℕ
sent = submits all_but_3 (frame_of 50)

abbrev nine : List (Event ℕ)
nine = sent ∷ sent ∷ sent ∷ sent ∷ sent ∷ sent ∷ sent ∷ sent ∷ sent ∷ []

-- The ninth frame that waits is refused.
nine_sent : length (run_events numbers nine (fresh numbers)).accepted ≡ 8
unfolding run_events step submit
nine_sent = refl

nine_open : (run_events numbers nine (fresh numbers)).run.state.ending ≡ false
unfolding run_events step submit
nine_open = refl

-- A new delivery starts the steps afresh.
live_steps_kept :
    (publish_all numbers all_but_3 (1 ∷ 2 ∷ 200 ∷ 1 ∷ 2 ∷ 3 ∷ []) fresh_state).live ≡ 1 ∷ 2 ∷ 3 ∷ []
unfolding publish recorded latest Option-discrete Text-discrete
live_steps_kept = refl

live-publish_all_fresh_example :
    IsEnd 64
      (since_first numbers (keep (is_progress numbers) (1 ∷ 2 ∷ 200 ∷ 1 ∷ [])))
      (publish_all numbers all_but_3 (1 ∷ 2 ∷ 200 ∷ 1 ∷ []) fresh_state).live
live-publish_all_fresh_example = live-publish_all_fresh numbers all_but_3 (1 ∷ 2 ∷ 200 ∷ 1 ∷ [])

abbrev events : List (Event ℕ)
events = attaches all_but_3 0 2 7 60 ∷ sent ∷ receives ∷ sent ∷ ends ∷ sent ∷ []

-- The frame that waits when the run ends is dropped, and the one after the end is refused.
ended_frames : (run_events numbers events (fresh numbers)).received ≡ frame_of 60 ∷ []
unfolding run_events step submit attach receive end
ended_frames = refl

run_events-IsTrace_example : IsTrace numbers (run_events numbers events (fresh numbers))
run_events-IsTrace_example = run_events-IsTrace numbers events

run_events-ended_example :
    ((run_events numbers
        (sent ∷ receives ∷ [])
        (step numbers ends (run_events numbers nine (fresh numbers)))).accepted
      ≡ (run_events numbers nine (fresh numbers)).accepted)
    × ((run_events numbers
          (sent ∷ receives ∷ [])
          (step numbers ends (run_events numbers nine (fresh numbers)))).received
        ≡ (run_events numbers nine (fresh numbers)).received)
    × ((run_events numbers
          (sent ∷ receives ∷ [])
          (step numbers ends (run_events numbers nine (fresh numbers)))).run.frames
        ≡ [])
run_events-ended_example =
    run_events-ended numbers (sent ∷ receives ∷ []) (run_events numbers nine (fresh numbers))
      nine_open
