-- ===== src/Chat/Run.antt =====
-- backend/src/chat/run/mod.rs and relay.rs: one Team's chat run. A page that watches is a number, its
-- identity; a JSON value is of a type of its own. What a page is told outside the code's locks is a
-- returned list, and whether a page's socket takes an event is an argument.
pub mod Live
pub mod Traces
pub mod Frames
pub mod Ending
pub mod Pages
mod Tests
use shimpz_admin.Prelude.{
  ℕ, zero, suc, ◌+◌, ◌-◌, ◌≡◌, Bool, true, false, not, ◌&&◌, ◌||◌, List, [], ◌∷◌, ◌++◌, Option,
  none, some, Text, Text-discrete, Option-discrete, ite, length, keep, ltb, leb, ◌==◌,
  if◌then◌else◌,
}

abbrev pub max_waiting_frames : ℕ
max_waiting_frames = 8

abbrev pub live_steps : ℕ
live_steps = 64

-- Where a run is now.
pub record Snapshot (V : Type 0) : Type 0 where
  pub elapsed_ms : ℕ
  pub position : Option ℕ
  pub cursor : V
  pub events : List V

-- What the code asks of the JSON library: the text under "type", the value under "seq", an integer, an
-- equality, and the events that the run itself makes.
pub record Json (V : Type 0) : Type 0 where
  pub kind : V → Option Text
  pub seq : V → Option V
  pub int : ℕ → V
  pub same : V → V → Bool
  pub running : Snapshot V → V
  pub ending_error : V

pub record Queued (V : Type 0) : Type 0 where
  pub frame : V
  pub authority : ℕ
  pub observer : Option ℕ

-- `RunState`; a time is in milliseconds.
pub record RunState (V : Type 0) : Type 0 where
  pub observers : List ℕ
  pub authority : Option ℕ
  pub live : List V
  pub started : Option ℕ
  pub position : Option ℕ
  pub ending : Bool
  pub dispatching : Bool

-- The identities of the work under way, as `work_identity` reads them.
pub record Work : Type 0 where
  pub active : Option ℕ
  pub sync_task : Option ℕ
  pub lifecycle : Option ℕ

-- The part of `Connection` that a run reads.
pub record Connection : Type 0 where
  pub work : Work
  pub lifecycle_proposal : Option ℕ
  pub closed : Bool

-- `Run`; `retired` says that the loop over its frames is over: it was aborted, or returned.
pub record Run (V : Type 0) : Type 0 where
  pub state : RunState V
  pub connection : Connection
  pub frames : List (Queued V)
  pub retired : Bool

-- "progress" and "error".
abbrev pub progress : Text
progress = 112 ∷ 114 ∷ 111 ∷ 103 ∷ 114 ∷ 101 ∷ 115 ∷ 115 ∷ []

abbrev pub error : Text
error = 101 ∷ 114 ∷ 114 ∷ 111 ∷ 114 ∷ []

abbrev pub is_some : Option ℕ → Bool
is_some none = false
is_some (some x) = true

abbrev pub mem : ℕ → List ℕ → Bool
mem o [] = false
mem o (p ∷ ps) = o == p || mem o ps

abbrev pub none_watches : List ℕ → Bool
none_watches [] = true
none_watches (o ∷ os) = false

abbrev pub fresh_state : {V : Type 0} → RunState V
fresh_state = record {
  observers = [];
  authority = none;
  live = [];
  started = none;
  position = none;
  ending = false;
  dispatching = false;
}

abbrev pub fresh_connection : Connection
fresh_connection = record {
  work = record { active = none; sync_task = none; lifecycle = none };
  lifecycle_proposal = none;
  closed = false;
}

abbrev pub same_option : Option ℕ → Option ℕ → Bool
same_option none none = true
same_option (some a) (some b) = a == b
same_option _ _ = false

-- Is there work now that was not there before?
abbrev pub begun : Option ℕ → Option ℕ → Bool
begun before after = is_some after && not (same_option before after)

abbrev pub any_begun : Work → Work → Bool
any_begun before after =
    begun before.active after.active
    || begun before.sync_task after.sync_task
    || begun before.lifecycle after.lifecycle

module _ {V : Type 0} where
  abbrev pub start : Run V
  start = record {
    state = fresh_state;
    connection = fresh_connection;
    frames = [];
    retired = false;
  }

  abbrev pub busy : Run V → Bool
  busy r =
      r.state.dispatching
      || is_some r.connection.work.active
      || is_some r.connection.work.sync_task
      || is_some r.connection.work.lifecycle
      || ltb 0 (length r.frames)

  abbrev pub observe : ℕ → RunState V → RunState V
  observe o s = if mem o s.observers then s else record s { observers = s.observers ++ o ∷ [] }

  abbrev pub retain_other : ℕ → RunState V → RunState V
  retain_other o s = record s { observers = keep (λ known. not (known == o)) s.observers }

  -- The loop is over. Its receiver is dropped, with the frames that wait.
  abbrev pub abandon : Run V → Run V
  abandon r = record r { frames = []; retired = true }

  -- `retire`, less the registry of runs.
  abbrev pub retire : Run V → Run V
  retire r = abandon r

  unfoldable pub detach : ℕ → Run V → Run V
  detach o r =
      let left = record r { state = retain_other o r.state } in
      let unproposed = record left {
        connection = record (left.connection) { lifecycle_proposal = none };
      } in
      if none_watches left.state.observers
      then (if busy unproposed then unproposed else retire unproposed)
      else left

  -- `drain(..excess)`.
  abbrev pub drop : ℕ → List V → List V
  drop n [] = []
  drop zero (x ∷ xs) = x ∷ xs
  drop (suc n) (x ∷ xs) = drop n xs

  unfoldable pub latest : List V → List V
  latest live = drop (length live - live_steps) live

  module _ (json : Json V) where
    abbrev pub has_kind : Text → V → Bool
    has_kind kind event =
        ite (Option-discrete Text-discrete (json.kind event) (some kind)) true false

    abbrev pub is_int : ℕ → Option V → Bool
    is_int n none = false
    is_int n (some value) = json.same value (json.int n)

    abbrev pub last_of : V → List V → V
    last_of event [] = event
    last_of event (next ∷ events) = last_of next events

    abbrev pub or_zero : Option V → V
    or_zero none = json.int 0
    or_zero (some value) = value

    abbrev pub cursor_of : List V → V
    cursor_of [] = json.int 0
    cursor_of (event ∷ events) = or_zero (json.seq (last_of event events))

    abbrev pub elapsed : ℕ → Option ℕ → ℕ
    elapsed now none = 0
    elapsed now (some started) = now - started

    abbrev pub snapshot : ℕ → RunState V → V
    snapshot now s = json.running (record {
      elapsed_ms = elapsed now s.started;
      position = s.position;
      cursor = cursor_of s.live;
      events = s.live;
    })

    -- What a page attaching later must see.
    unfoldable pub recorded : V → List V → List V
    recorded event live =
        if has_kind progress event
        then latest ((if is_int 1 (json.seq event) then [] else live) ++ event ∷ [])
        else live

    -- The pages that are told, and then only those that took the event.
    unfoldable pub publish : (ℕ → V → Bool) → V → RunState V → RunState V × List ℕ
    publish takes event s =
        let failed = keep (λ o. not (takes o event)) s.observers in
        (
          record s {
            live = recorded event s.live;
            observers = keep (λ o. not (mem o failed)) s.observers;
          },
          s.observers,
        )

    abbrev pub push_to : (ℕ → V → Bool) → ℕ → V → RunState V → RunState V
    push_to takes o event s = if takes o event then s else retain_other o s

    unfoldable pub set_position : (ℕ → V → Bool) → ℕ → Option ℕ → RunState V → RunState V × List ℕ
    set_position takes now place s =
        let placed = record s { position = place } in
        let (told, pages) = publish takes (snapshot now placed) placed in
        if same_option s.position place then (placed, []) else (told, pages)

    abbrev pub refuse_ending : (ℕ → V → Bool) → Option ℕ → RunState V → RunState V
    refuse_ending takes none s = s
    refuse_ending takes (some o) s = push_to takes o json.ending_error s

    -- The run, and whether the frame was answered or queued. Nothing joins the queue of a loop that is
    -- over.
    unfoldable pub submit : (ℕ → V → Bool) → Queued V → Run V → Run V × Bool
    submit takes q r =
        if r.connection.closed
        then (record r { state = refuse_ending takes q.observer r.state }, true)
        else if r.retired
        then (r, false)
        else if ltb (length r.frames) max_waiting_frames
        then (record r { frames = r.frames ++ q ∷ [] }, true)
        else (r, false)

    -- `attach`, with the frame that asks for a sync.
    -- The run, and the snapshot that the page is shown where the run is busy.
    unfoldable pub attach : (ℕ → V → Bool) → ℕ → ℕ → ℕ → V → Run V → Run V × Option V
    attach takes now o authority sync r =
        let watched = record r { state = observe o r.state } in
        let asked =
          submit takes (record { frame = sync; authority = authority; observer = some o })
            watched in
        if busy watched then (watched, some (snapshot now watched.state)) else (asked.0, none)

    -- `Relay::send`, of a relay that is framed by a page while its frame dispatches, or of none.
    unfoldable pub send : (ℕ → V → Bool) → Option ℕ → V → RunState V → RunState V × List ℕ
    send takes none event s = publish takes event s
    send takes (some o) event s =
        if has_kind error event then (push_to takes o event s, o ∷ []) else publish takes event s

  -- `run_loop` receives a frame, unless it dispatches one or is over.
  abbrev pub received : Run V → List (Queued V) → Option (Queued V × Run V)
  received r [] = none
  received r (q ∷ rest) =
      if r.retired || r.state.dispatching
      then none
      else some (q, record r { frames = rest; state = record (r.state) { dispatching = true } })

  unfoldable pub receive : Run V → Option (Queued V × Run V)
  receive r = received r r.frames

  -- The end of `run_frame`, whose dispatch left this work and proposal.
  abbrev pub framed : Queued V → Work → Option ℕ → ℕ → Run V → Run V
  framed q after proposal now r = record r {
    connection = record (r.connection) { work = after; lifecycle_proposal = proposal };
    state =
        if any_begun r.connection.work after
        then record (r.state) {
          authority = some q.authority;
          live = [];
          started = some now;
          position = none;
        }
        else r.state;
  }

  -- The end of a round of the loop; a frame whose authority ended is not dispatched, and leaves the work
  -- and the proposal as they were. The second result says whether the round spawns `end`: the dispatch
  -- found its page disconnected, and the loop returns.
  unfoldable pub dispatched : Queued V → Work → Option ℕ → Bool → ℕ → Run V → Run V × Bool
  dispatched q after proposal disconnected now r =
      let done = framed q after proposal now r in
      let idle = record done { state = record (done.state) { dispatching = false } } in
      if disconnected then (abandon idle, true) else (idle, false)

  -- `end`, up to the end of the run's work.
  unfoldable pub end : Run V → Run V
  end r =
      if r.state.ending
      then r
      else abandon (record r {
        state = record (r.state) { ending = true };
        connection = record (r.connection) { closed = true };
      })
