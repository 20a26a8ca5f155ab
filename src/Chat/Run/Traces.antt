-- ===== src/Chat/Run/Traces.antt =====
-- What happens to a run, step by step, with the frames that it accepted and received.
use shimpz_admin.Prelude.{
  ℕ, Bool, true, false, not, ◌&&◌, ◌||◌, List, [], ◌∷◌, ◌++◌, Option, none, some, length, ltb,
  if◌then◌else◌,
}
use shimpz_admin.Chat.Run.{
  max_waiting_frames, Json, Queued, Work, Run, start, busy, observe, detach, publish, submit,
  attach, receive, dispatched, end,
}

-- What happens to a run, in any order: a page sends a frame, attaches or leaves, the loop receives a frame
-- or ends its dispatch, an event is published, and the run ends. A loop that is over, or dispatches
-- nothing, has no dispatch to end.
pub data Event (V : Type 0) : Type 0 where
  submits : (ℕ → V → Bool) → Queued V → Event V
  attaches : (ℕ → V → Bool) → ℕ → ℕ → ℕ → V → Event V
  detaches : ℕ → Event V
  receives : Event V
  dispatches : Queued V → Work → Option ℕ → Bool → ℕ → Event V
  publishes : (ℕ → V → Bool) → V → Event V
  ends : Event V

-- A run with the frames that it accepted and those that its loop received.
pub record Trace (V : Type 0) : Type 0 where
  pub run : Run V
  pub accepted : List (Queued V)
  pub received : List (Queued V)

module _ {V : Type 0} (json : Json V) where
  -- The frame that joined the queue.
  abbrev pub joined : Bool → Queued V → List (Queued V)
  joined true q = q ∷ []
  joined false q = []

  abbrev pub joins : Run V → Bool
  joins r = not r.connection.closed && not r.retired && ltb (length r.frames) max_waiting_frames

  abbrev pub watched : ℕ → Run V → Run V
  watched o r = record r { state = observe o r.state }

  abbrev pub sync_frame : ℕ → ℕ → V → Queued V
  sync_frame o authority sync = record { frame = sync; authority = authority; observer = some o }

  abbrev pub taken : Trace V → Option (Queued V × Run V) → Trace V
  taken t none = t
  taken t (some (q, r)) = record t { run = r; received = t.received ++ q ∷ [] }

  unfoldable pub step : Event V → Trace V → Trace V
  step (submits takes q) t = record t {
    run = (submit json takes q t.run).0;
    accepted = t.accepted ++ joined (joins t.run) q;
  }
  step (attaches takes now o authority sync) t = record t {
    run = (attach json takes now o authority sync t.run).0;
    accepted =
        t.accepted
        ++ joined (not (busy (watched o t.run)) && joins t.run) (sync_frame o authority sync);
  }
  step (detaches o) t = record t { run = detach o t.run }
  step receives t = taken t (receive t.run)
  step (dispatches q after proposal disconnected now) t =
      if t.run.retired || not t.run.state.dispatching
      then t
      else record t { run = (dispatched q after proposal disconnected now t.run).0 }
  step (publishes takes event) t = record t {
    run = record (t.run) { state = (publish json takes event t.run.state).0 };
  }
  step ends t = record t { run = end t.run }

  unfoldable pub run_events : List (Event V) → Trace V → Trace V
  run_events [] t = t
  run_events (e ∷ es) t = run_events es (step e t)

  abbrev pub fresh : Trace V
  fresh = record { run = start; accepted = []; received = [] }
