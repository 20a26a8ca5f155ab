-- ===== src/Lanes/Tests.antt =====
-- A lane of one worker and two admissions: the first job runs to its end and the second is cancelled.
use shimpz_admin.Prelude.{ℕ, ◌≡◌, ◌↔◌, ◌≤◌, refl, false, true, List, [], ◌∷◌, none, some, get_elem?}
use shimpz_admin.Lanes.{
  Job, Lane, Permits, waiting, granted, runs, returned, pending, running, cancelled_state, done,
  cancelled, take_worker, start, finish, cancel, new, new_job, submit, detach, job_step, jobs_step,
  cancel_job, Reached, here, by_submit, by_step,
}
use shimpz_admin.Lanes.Counts.{total, held_admission, is_running, Reached-bounded}
use shimpz_admin.Lanes.Phases.{awaits, is_waiting}
use shimpz_admin.Lanes.Ends.{FollowedAt, Reached-follows}
use shimpz_admin.Lanes.Results.{EndedAt, cancel_job-never}
use shimpz_admin.Lanes.Progress.{Drains, Reached-Drains}

abbrev lane_of : Permits → List (Job ℕ) → Lane ℕ
lane_of p js = record { permits = p; jobs = js }

abbrev permits_of : ℕ → ℕ → Permits
permits_of workers admitted = record { workers = workers; admitted = admitted }

abbrev granted_job : Job ℕ
granted_job = record { state = pending; result = none; notified = false; stage = granted }

abbrev running_job : Job ℕ
running_job = record { state = running; result = none; notified = false; stage = runs }

abbrev done_job : Job ℕ
done_job = record { state = running; result = some (done 7); notified = false; stage = returned }

abbrev cancelled_job : Job ℕ
cancelled_job = record {
  state = cancelled_state;
  result = some cancelled;
  notified = true;
  stage = waiting;
}

abbrev empty : Lane ℕ
empty = new 1 2

abbrev two_jobs : Lane ℕ
two_jobs = lane_of (permits_of 1 0) (new_job ∷ new_job ∷ [])

two_jobs-Reached : Reached empty two_jobs
unfolding submit
two_jobs-Reached =
    by_submit (lane_of (permits_of 1 1) (new_job ∷ [])) two_jobs
      (by_submit empty (lane_of (permits_of 1 1) (new_job ∷ [])) here refl) refl

-- The third job is refused.
saturated : submit two_jobs ≡ none
unfolding submit
saturated = refl

-- A fresh lane admits its first job.
detach_admits : detach ≡ some (lane_of (permits_of 1 0) (new_job ∷ []))
unfolding submit
detach_admits = refl

abbrev cancelled_lane : Lane ℕ
cancelled_lane = lane_of (permits_of 1 0) (new_job ∷ cancelled_job ∷ [])

cancelled_step :
    jobs_step 1 cancel two_jobs.permits two_jobs.jobs
    ≡ some (permits_of 1 0, new_job ∷ cancelled_job ∷ [])
unfolding jobs_step job_step cancel_job
cancelled_step = refl

abbrev finished_lane : Lane ℕ
finished_lane = lane_of (permits_of 1 1) (done_job ∷ cancelled_job ∷ [])

finished-Reached : Reached cancelled_lane finished_lane
unfolding jobs_step job_step
finished-Reached =
    by_step (lane_of (permits_of 0 0) (running_job ∷ cancelled_job ∷ [])) (permits_of 1 1) _ 0
      (finish (some 7))
      (by_step (lane_of (permits_of 0 0) (granted_job ∷ cancelled_job ∷ [])) (permits_of 0 0) _ 0
        start (by_step cancelled_lane (permits_of 0 0) _ 0 take_worker here refl) refl)
      refl

cancelled-Reached : Reached empty cancelled_lane
cancelled-Reached = by_step two_jobs _ _ 1 cancel two_jobs-Reached cancelled_step

Reached-bounded_example :
    (total is_running two_jobs.jobs ≤ 1)
    × (total held_admission two_jobs.jobs ≤ 2)
    × ((submit two_jobs ≡ none) ↔ (total held_admission two_jobs.jobs ≡ 2))
Reached-bounded_example = Reached-bounded 1 2 two_jobs two_jobs-Reached

Reached-follows_example : FollowedAt awaits (get_elem? finished_lane.jobs 0)
Reached-follows_example =
    Reached-follows cancelled_lane finished_lane finished-Reached 0 new_job awaits refl is_waiting

cancel_job-never_example : EndedAt cancelled (get_elem? finished_lane.jobs 1)
unfolding cancel_job
cancel_job-never_example =
    cancel_job-never 1 2 two_jobs finished_lane two_jobs-Reached 1 new_job (permits_of 1 0)
      (new_job ∷ cancelled_job ∷ []) refl refl cancelled_step finished-Reached

Reached-Drains_example : Drains (some 7) 1 2 cancelled_lane
Reached-Drains_example = Reached-Drains (some 7) 1 2 cancelled_lane cancelled-Reached
