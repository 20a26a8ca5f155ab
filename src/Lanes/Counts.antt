-- ===== src/Lanes/Counts.antt =====
-- The permits of a lane, and the jobs that hold them.
use shimpz_admin.Prelude.{
  ℕ, zero, suc, ◌+◌, max, ◌≤◌, ◌≡◌, ◌↔◌, refl, List, [], ◌∷◌, ◌++◌, none, some, arith, Option-cases,
  inl, inr,
}
use shimpz_admin.Lanes.{
  Job, Stage, waiting, granted, runs, returned, Permits, Lane, Event, new, new_job, submit,
  job_step, jobs_step, task_step, Reached, here, by_submit, by_step, cancel_job,
}

-- The worker and the admission that a task holds.
abbrev pub held_worker : Stage → ℕ
held_worker waiting = 0
held_worker granted = 1
held_worker runs = 1
held_worker returned = 0

abbrev pub held_admission : Stage → ℕ
held_admission waiting = 1
held_admission granted = 1
held_admission runs = 1
held_admission returned = 0

abbrev pub is_running : Stage → ℕ
is_running waiting = 0
is_running granted = 0
is_running runs = 1
is_running returned = 0

running_held : (s : Stage) → is_running s ≤ held_worker s
running_held s = ground arith

module _ {ℓ} {T : Type ℓ} where
  -- The sum of a measure over the stages of jobs.
  unfoldable pub total : (Stage → ℕ) → List (Job T) → ℕ
  total f [] = 0
  total f (j ∷ js) = f j.stage + total f js

  pub total-append :
      (f : Stage → ℕ) (xs ys : List (Job T)) → total f (xs ++ ys) ≡ total f xs + total f ys
  unfolding total
  total-append f [] ys = omega arith
  total-append f (x ∷ xs) ys = ground (arith, total-append f xs ys)

  step_keeps :
      (e : Event T) (s : Stage) (p q : Permits) (j k : Job T)
      → j.stage ≡ s
      → task_step e s p j ≡ some (q, k)
      → (q.workers + held_worker k.stage ≡ p.workers + held_worker s)
        × (q.admitted + held_admission k.stage ≡ p.admitted + held_admission s)
  unfolding cancel_job
  step_keeps e s p q j k i h = (ground (arith, i, h), ground (arith, i, h))

  -- A step of a job leaves the permits that are free or held as many as they were.
  jobs_step_keeps :
      (index : ℕ) (e : Event T) (p q : Permits) (js ks : List (Job T))
      → jobs_step index e p js ≡ some (q, ks)
      → (q.workers + total held_worker ks ≡ p.workers + total held_worker js)
        × (q.admitted + total held_admission ks ≡ p.admitted + total held_admission js)
  unfolding jobs_step total job_step
  jobs_step_keeps index e p q [] ks h = ground (arith, h)
  jobs_step_keeps zero e p q (j ∷ js) ks h = elim (Option-cases (job_step e p j)) [
    | inl n ↦ ground (arith, n, h)
    | inr ((p', j'), n) ↦
        let (a, b) = step_keeps e j.stage p p' j j' refl n in
        (ground (arith, n, h, a), ground (arith, n, h, b))
  ]
  jobs_step_keeps (suc index) e p q (j ∷ js) ks h = elim (Option-cases (jobs_step index e p js)) [
    | inl n ↦ ground (arith, n, h)
    | inr ((p', js'), n) ↦
        let (a, b) = jobs_step_keeps index e p p' js js' n in
        (ground (arith, n, h, a), ground (arith, n, h, b))
  ]

  -- A lane's permits: free, or held by a task that has not returned.
  pub record IsLane (workers outstanding : ℕ) (lane : Lane T) : Type ℓ where
    pub workers_held : lane.permits.workers + total held_worker lane.jobs ≡ max workers 1
    pub admissions_held :
        lane.permits.admitted + total held_admission lane.jobs ≡ max (max outstanding workers) 1

  submit-IsLane : (w o : ℕ) (l m : Lane T) → IsLane w o l → submit l ≡ some m → IsLane w o m
  unfolding submit total
  submit-IsLane w o l m v h = record {
    workers_held =
        ground (arith, h, v.workers_held, total-append held_worker l.jobs (new_job ∷ []));
    admissions_held =
        ground (arith, h, v.admissions_held, total-append held_admission l.jobs (new_job ∷ []));
  }

  -- From a new lane on, every permit is free or held by a task that has not returned.
  pub Reached-IsLane : (w o : ℕ) (l : Lane T) → Reached (new w o) l → IsLane w o l
  unfolding total
  Reached-IsLane w o l here = record { workers_held = omega arith; admissions_held = omega arith }
  Reached-IsLane w o m (by_submit l _ r h) = submit-IsLane w o l m (Reached-IsLane w o l r) h
  Reached-IsLane w o _ (by_step l p js index e r h) =
      let v = Reached-IsLane w o l r in
      let (a, b) = jobs_step_keeps index e l.permits p l.jobs js h in
      record {
        workers_held = omega (arith, a, v.workers_held);
        admissions_held = omega (arith, b, v.admissions_held);
      }

  total-le :
      (f g : Stage → ℕ) → ((s : Stage) → f s ≤ g s) → (js : List (Job T)) → total f js ≤ total g js
  unfolding total
  total-le f g h [] = omega arith
  total-le f g h (j ∷ js) = omega (arith, h j.stage, total-le f g h js)

  -- However jobs are submitted, cancelled and run, no more than `workers` of them run at once, no more
  -- than `outstanding` are admitted, where each number is at least 1 and the second at least the first,
  -- and a job is refused exactly when that many are admitted.
  pub Reached-bounded :
      (w o : ℕ) (l : Lane T)
      → Reached (new w o) l
      → (total is_running l.jobs ≤ max w 1)
        × (total held_admission l.jobs ≤ max (max o w) 1)
        × ((submit l ≡ none) ↔ (total held_admission l.jobs ≡ max (max o w) 1))
  unfolding submit
  Reached-bounded w o l r =
      let v = Reached-IsLane w o l r in
      (
        omega (arith, v.workers_held, total-le is_running held_worker running_held l.jobs),
        omega (arith, v.admissions_held),
        ((λ h. ground (arith, v.admissions_held, h)), (λ h. ground (arith, v.admissions_held, h))),
      )
