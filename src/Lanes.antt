-- ===== src/Lanes.antt =====
-- backend/src/lanes/mod.rs: bounded worker lanes. A lane is the free permits of its two semaphores and
-- every job that it was given, in that order; an index names a job. The steps of the tasks, which run
-- at the same time, are single events here, in any order.
pub mod Counts
pub mod Ends
pub mod Phases
pub mod Results
pub mod Progress
mod Tests
use shimpz_admin.Prelude.{
  ℕ, zero, suc, ◌+◌, ◌-◌, max, Bool, true, false, ◌||◌, ◌&&◌, List, [], ◌∷◌, ◌++◌, Option, none,
  some, length, ◌==◌, ◌≡◌, if◌then◌else◌,
}

abbrev pub pending : ℕ
pending = 0

abbrev pub running : ℕ
running = 1

abbrev pub cancelled_state : ℕ
cancelled_state = 2

pub data Ended {ℓ} (T : Type ℓ) : Type ℓ where
  done : T → Ended T
  cancelled : Ended T
  panicked : Ended T

-- Where the spawned task of a job is: it waits for a worker, has one, runs the job, or has returned.
pub data Stage : Type 0 where
  waiting : Stage
  granted : Stage
  runs : Stage
  returned : Stage

-- `Job` with its task: the atomic state, the result, whether `cancelled` was notified, and the stage.
pub record Job {ℓ} (T : Type ℓ) : Type ℓ where
  pub state : ℕ
  pub result : Option (Ended T)
  pub notified : Bool
  pub stage : Stage

-- The free permits of a lane.
pub record Permits : Type 0 where
  pub workers : ℕ
  pub admitted : ℕ

pub record Lane {ℓ} (T : Type ℓ) : Type ℓ where
  pub permits : Permits
  pub jobs : List (Job T)

-- One step of a job: its task gets a worker, sees the notification, tries to start, or ends with a
-- result or a panic; or somebody calls `cancel`.
pub data Event {ℓ} (T : Type ℓ) : Type ℓ where
  take_worker : Event T
  see_cancel : Event T
  start : Event T
  finish : Option T → Event T
  cancel : Event T

abbrev pub new_permits : ℕ → ℕ → Permits
new_permits workers outstanding = record {
  workers = max workers 1;
  admitted = max (max outstanding workers) 1;
}

-- Both permits go back when the task returns.
abbrev pub give_back : Permits → Permits
give_back p = record { workers = p.workers + 1; admitted = p.admitted + 1 }

module _ {ℓ} {T : Type ℓ} where
  abbrev pub new : ℕ → ℕ → Lane T
  new workers outstanding = record { permits = new_permits workers outstanding; jobs = [] }

  abbrev pub new_job : Job T
  new_job = record { state = pending; result = none; notified = false; stage = waiting }

  -- `None` is `Saturated`.
  unfoldable pub submit : Lane T → Option (Lane T)
  submit lane =
      if lane.permits.admitted == 0
      then none
      else some (record {
        permits = record (lane.permits) { admitted = lane.permits.admitted - 1 };
        jobs = lane.jobs ++ new_job ∷ [];
      })

  abbrev pub ended : Option T → Ended T
  ended none = panicked
  ended (some result) = done result

  -- After `compare_exchange(PENDING, RUNNING)`.
  abbrev pub started : Permits → Job T → Permits × Job T
  started p j =
      if j.state == pending
      then (p, record j { state = running; stage = runs })
      else (give_back p, record j { result = some cancelled; stage = returned })

  -- `cancel`, and its answer.
  unfoldable pub cancel_job : Job T → Bool × Job T
  cancel_job j =
      if j.state == pending
      then (true, record j { state = cancelled_state; result = some cancelled; notified = true })
      else (j.state == cancelled_state, j)

  -- What a job that waits for a worker, or for the notification, does.
  abbrev pub taken : Permits → Job T → Option (Permits × Job T)
  taken p j =
      if p.workers == 0
      then none
      else some (record p { workers = p.workers - 1 }, record j { stage = granted })

  abbrev pub stopped : Permits → Job T → Option (Permits × Job T)
  stopped p j =
      if j.notified
      then some (record p { admitted = p.admitted + 1 }, record j { stage = returned })
      else none

  -- The task's step where its stage has one.
  abbrev pub task_step : Event T → Stage → Permits → Job T → Option (Permits × Job T)
  task_step take_worker waiting p j = taken p j
  task_step see_cancel waiting p j = stopped p j
  task_step start granted p j = some (started p j)
  task_step (finish result) runs p j =
      some (give_back p, record j { result = some (ended result); stage = returned })
  task_step cancel stage p j = some (p, (cancel_job j).1)
  task_step _ _ p j = none

  unfoldable pub job_step : Event T → Permits → Job T → Option (Permits × Job T)
  job_step e p j = task_step e (j.stage) p j

  abbrev pub with_head : Option (Permits × Job T) → List (Job T) → Option (Permits × List (Job T))
  with_head none js = none
  with_head (some (p, j)) js = some (p, j ∷ js)

  abbrev pub with_tail : Job T → Option (Permits × List (Job T)) → Option (Permits × List (Job T))
  with_tail j none = none
  with_tail j (some (p, js)) = some (p, j ∷ js)

  unfoldable pub jobs_step : ℕ → Event T → Permits → List (Job T) → Option (Permits × List (Job T))
  jobs_step index e p [] = none
  jobs_step zero e p (j ∷ js) = with_head (job_step e p j) js
  jobs_step (suc index) e p (j ∷ js) = with_tail j (jobs_step index e p js)

  -- A lane of its own for one job.
  abbrev pub detach : Option (Lane T)
  detach = submit (new 1 1)

  -- The lanes that follow a lane, by jobs that are submitted and steps of jobs, in any order.
  pub data Reached (lane : Lane T) : Lane T → Type ℓ where
    here : Reached lane lane
    by_submit : (l m : Lane T) → Reached lane l → submit l ≡ some m → Reached lane m
    by_step :
        (l : Lane T) (p : Permits) (js : List (Job T)) (index : ℕ) (e : Event T)
        → Reached lane l
        → jobs_step index e (l.permits) (l.jobs) ≡ some (p, js)
        → Reached lane (record { permits = p; jobs = js })
