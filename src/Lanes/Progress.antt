-- ===== src/Lanes/Progress.antt =====
-- A lane's tasks come to their ends.
use shimpz_admin.Prelude.{
  ℕ, zero, suc, ◌-◌, ◌≤◌, ◌<◌, ◌≡◌, max, refl, ap, ◌∙◌, Bool, true, false, List, [], ◌∷◌, Option,
  some, arith, Option-cases, inl, inr, dec_lt,
}
use shimpz_admin.Lanes.{
  Job, Stage, waiting, granted, returned, runs, Permits, Lane, Event, take_worker, see_cancel,
  start, finish, cancel, new, job_step, jobs_step, task_step, taken, Reached, by_step,
}
use shimpz_admin.Lanes.Counts.{total, held_worker, held_admission, IsLane, Reached-IsLane}

-- The steps that a task at a stage has left, at most.
abbrev pub steps_left : Stage → ℕ
steps_left waiting = 3
steps_left granted = 2
steps_left runs = 1
steps_left returned = 0

module _ {ℓ} {T : Type ℓ} where
  -- A step of the task itself.
  abbrev pub is_task : Event T → Bool
  is_task take_worker = true
  is_task see_cancel = true
  is_task start = true
  is_task (finish result) = true
  is_task cancel = false

  -- The steps that the tasks take of themselves, where each job that runs ends in one way.
  pub data Works (ending : Option T) : Event T → Type ℓ where
    takes : Works ending take_worker
    sees : Works ending see_cancel
    starts : Works ending start
    finishes : Works ending (finish ending)

  works-is_task : (ending : Option T) (e : Event T) → Works ending e → is_task e ≡ true
  works-is_task ending _ takes = refl
  works-is_task ending _ sees = refl
  works-is_task ending _ starts = refl
  works-is_task ending _ finishes = refl

  -- The lanes that such steps alone bring to a lane: nothing is submitted, and nothing is cancelled.
  pub data Brought (ending : Option T) (m : Lane T) : Lane T → Type ℓ where
    stands : Brought ending m m
    by_task :
        (l : Lane T) (p : Permits) (js : List (Job T)) (index : ℕ) (e : Event T)
        → Works ending e
        → jobs_step index e (l.permits) (l.jobs) ≡ some (p, js)
        → Brought ending m (record { permits = p; jobs = js })
        → Brought ending m l

  task_step-less :
      (e : Event T) (s : Stage) (p q : Permits) (j k : Job T)
      → is_task e ≡ true
      → task_step e s p j ≡ some (q, k)
      → steps_left k.stage < steps_left s
  task_step-less e s p q j k t h = ground (arith, t, h)

  -- Every step of a task leaves fewer of them.
  pub jobs_step-less :
      (index : ℕ) (e : Event T) (p q : Permits) (js ks : List (Job T))
      → is_task e ≡ true
      → jobs_step index e p js ≡ some (q, ks)
      → total steps_left ks < total steps_left js
  unfolding jobs_step job_step total
  jobs_step-less index e p q [] ks t h = ground (arith, h)
  jobs_step-less zero e p q (j ∷ js) ks t h = elim (Option-cases (job_step e p j)) [
    | inl m ↦ ground (arith, m, h)
    | inr ((p', j'), m) ↦ let f = task_step-less e j.stage p p' j j' t m in ground (arith, m, h, f)
  ]
  jobs_step-less (suc index) e p q (j ∷ js) ks t h = elim (Option-cases (jobs_step index e p js)) [
    | inl m ↦ ground (arith, m, h)
    | inr ((p', js'), m) ↦ let f = jobs_step-less index e p p' js js' t m in ground (arith, m, h, f)
  ]

  -- A step that a task can take.
  pub record CanStep (ending : Option T) (p : Permits) (js : List (Job T)) : Type ℓ where
    pub index : ℕ
    pub event : Event T
    pub permits : Permits
    pub jobs : List (Job T)
    pub works : Works ending event
    pub leads : jobs_step index event p js ≡ some (permits, jobs)

  later-CanStep :
      (ending : Option T) (p : Permits) (j : Job T) (js : List (Job T))
      → CanStep ending p js
      → CanStep ending p (j ∷ js)
  unfolding jobs_step
  later-CanStep ending p j js v = record {
    index = suc v.index;
    event = v.event;
    permits = v.permits;
    jobs = j ∷ v.jobs;
    works = v.works;
    leads = rw (v.leads) refl;
  }

  first-CanStep :
      (ending : Option T) (p q : Permits) (j k : Job T) (js : List (Job T)) (e : Event T)
      → Works ending e
      → job_step e p j ≡ some (q, k)
      → CanStep ending p (j ∷ js)
  unfolding jobs_step
  first-CanStep ending p q j k js e t h = record {
    index = 0;
    event = e;
    permits = q;
    jobs = k ∷ js;
    works = t;
    leads = rw h refl;
  }

  module _ (ending : Option T) (p : Permits) where
    -- The step of a task that has a worker, and of one that waits where a worker is free.
    busy-CanStep :
        (s : Stage) (j : Job T) (js : List (Job T))
        → j.stage ≡ s
        → 1 ≤ held_worker s
        → CanStep ending p (j ∷ js)
    unfolding job_step
    busy-CanStep waiting j js h b = absurd (omega (arith, b))
    busy-CanStep granted j js h b =
        first-CanStep ending p _ j _ js start starts (ap (λ s. task_step start s p j) h)
    busy-CanStep runs j js h b =
        first-CanStep ending p _ j _ js (finish ending) finishes
          (ap (λ s. task_step (finish ending) s p j) h)
    busy-CanStep returned j js h b = absurd (omega (arith, b))

    free-CanStep :
        (s : Stage) (j : Job T) (js : List (Job T))
        → j.stage ≡ s
        → 1 ≤ p.workers
        → 1 ≤ held_admission s
        → CanStep ending p (j ∷ js)
    unfolding job_step
    free-CanStep waiting j js h w b =
        let t : taken p j
            ≡ some (record p { workers = p.workers - 1 }, record j { stage = granted }) =
          ground (arith, w) in
        first-CanStep ending p _ j _ js take_worker takes
          (ap (λ s. task_step take_worker s p j) h ∙ t)
    free-CanStep granted j js h w b = busy-CanStep granted j js h (omega arith)
    free-CanStep runs j js h w b = busy-CanStep runs j js h (omega arith)
    free-CanStep returned j js h w b = absurd (omega (arith, b))

    some_busy-CanStep : (js : List (Job T)) → 1 ≤ total held_worker js → CanStep ending p js
    unfolding total
    some_busy-CanStep [] b = absurd (omega (arith, b))
    some_busy-CanStep (j ∷ js) b = elim (dec_lt 0 (held_worker j.stage)) [
      | yes l ↦ busy-CanStep j.stage j js refl (omega (arith, l))
      | no g ↦ later-CanStep ending p j js (some_busy-CanStep js (omega (arith, b, g)))
    ]

    some_free-CanStep :
        (js : List (Job T)) → 1 ≤ p.workers → 1 ≤ total held_admission js → CanStep ending p js
    unfolding total
    some_free-CanStep [] w b = absurd (omega (arith, b))
    some_free-CanStep (j ∷ js) w b = elim (dec_lt 0 (held_admission j.stage)) [
      | yes l ↦ free-CanStep j.stage j js refl w (omega (arith, l))
      | no g ↦ later-CanStep ending p j js (some_free-CanStep js w (omega (arith, b, g)))
    ]

  -- A lane never comes to a stop while a job's task has not returned.
  Reached-CanStep :
      (ending : Option T) (w o : ℕ) (l : Lane T)
      → IsLane w o l
      → 1 ≤ total held_admission l.jobs
      → CanStep ending l.permits l.jobs
  Reached-CanStep ending w o l v h = elim (dec_lt 0 l.permits.workers) [
    | yes g ↦ some_free-CanStep ending l.permits l.jobs (omega (arith, g)) h
    | no g ↦ some_busy-CanStep ending l.permits l.jobs (omega (arith, g, v.workers_held))
  ]

  -- A lane whose tasks have all returned, with all its permits free, that its tasks bring about.
  pub record IsIdle (ending : Option T) (w o : ℕ) (l m : Lane T) : Type ℓ where
    pub brought : Brought ending m l
    pub no_task : total held_admission m.jobs ≡ 0
    pub workers_free : m.permits.workers ≡ max w 1
    pub admissions_free : m.permits.admitted ≡ max (max o w) 1

  pub record Drains (ending : Option T) (w o : ℕ) (l : Lane T) : Type ℓ where
    pub lane : Lane T
    pub idle : IsIdle ending w o l lane

  workers-admissions : (js : List (Job T)) → total held_worker js ≤ total held_admission js
  unfolding total
  workers-admissions [] = omega arith
  workers-admissions (j ∷ js) = ground (arith, workers-admissions js)

  -- On fuel for the steps that the tasks have left.
  drain_on :
      (fuel : ℕ) (ending : Option T) (w o : ℕ) (l : Lane T)
      → Reached (new w o) l
      → total steps_left l.jobs < fuel
      → Drains ending w o l
  drain_on zero ending w o l r f = absurd (omega (arith, f))
  drain_on (suc fuel) ending w o l r f =
      let v = Reached-IsLane w o l r in
      elim (dec_lt 0 (total held_admission l.jobs)) [
        | yes g ↦
            let s = Reached-CanStep ending w o l v (omega (arith, g)) in
            let less =
              jobs_step-less s.index s.event l.permits s.permits l.jobs s.jobs
                (works-is_task ending s.event s.works) s.leads in
            let m : Lane T = record { permits = s.permits; jobs = s.jobs } in
            let d =
              drain_on fuel ending w o m (by_step l s.permits s.jobs s.index s.event r s.leads)
                (omega (arith, f, less)) in
            record {
              lane = d.lane;
              idle = record {
                brought = by_task l s.permits s.jobs s.index s.event s.works s.leads d.idle.brought;
                no_task = d.idle.no_task;
                workers_free = d.idle.workers_free;
                admissions_free = d.idle.admissions_free;
              };
            }
        | no g ↦ record {
          lane = l;
          idle = record {
            brought = stands;
            no_task = omega (arith, g);
            workers_free = omega (arith, g, v.workers_held, workers-admissions l.jobs);
            admissions_free = omega (arith, g, v.admissions_held);
          };
        }
      ]

  -- However jobs were submitted, cancelled and run, and whichever way each job that runs ends, the tasks
  -- alone, with nothing submitted or cancelled any more, can go on until each one has returned, and then
  -- every permit of the lane is free again.
  pub Reached-Drains :
      (ending : Option T) (w o : ℕ) (l : Lane T) → Reached (new w o) l → Drains ending w o l
  Reached-Drains ending w o l r =
      drain_on (suc (total steps_left l.jobs)) ending w o l r (omega arith)
