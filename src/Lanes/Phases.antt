-- ===== src/Lanes/Phases.antt =====
-- What a job is to those who wait for it: it waits, it runs, or it ended; and the code's jobs as such.
use shimpz_admin.Prelude.{
  ℕ, ◌≡◌, subst, Bool, true, false, Option, none, some, ◌==◌, inl, inr, Bool-cases,
}
use shimpz_admin.Lanes.{
  Job, Stage, waiting, granted, runs, returned, Permits, Event, take_worker, see_cancel, start,
  finish, cancel, Ended, cancelled, pending, running, cancelled_state, ended, job_step, task_step,
  taken, stopped, started, cancel_job,
}

pub data Phase {ℓ} (T : Type ℓ) : Type ℓ where
  awaits : Phase T
  going : Phase T
  over : Ended T → Phase T

module _ {ℓ} {T : Type ℓ} where
  -- A job that waits can begin or be cancelled; one that runs can only end of itself; an end is final.
  pub data Moves : Phase T → Phase T → Type ℓ where
    stays : (p : Phase T) → Moves p p
    begins : Moves awaits going
    cancels : Moves awaits (over cancelled)
    ends : (r : Option T) → Moves going (over (ended r))

  abbrev job : ℕ → Option (Ended T) → Bool → Stage → Job T
  job state result notified stage = record {
    state = state;
    result = result;
    notified = notified;
    stage = stage;
  }

  -- The jobs of the code, and the phase that each one shows.
  pub data Shows : Job T → Phase T → Type ℓ where
    is_waiting : Shows (job pending none false waiting) awaits
    has_worker : Shows (job pending none false granted) awaits
    is_running : Shows (job running none false runs) going
    has_ended :
        (r : Option T) → Shows (job running (some (ended r)) false returned) (over (ended r))
    gave_up_waiting : Shows (job cancelled_state (some cancelled) true waiting) (over cancelled)
    gave_up_worker : Shows (job cancelled_state (some cancelled) true granted) (over cancelled)
    gave_up : Shows (job cancelled_state (some cancelled) true returned) (over cancelled)

  -- A move of the phase, to one that the job shows.
  pub record Moved (q : Phase T) (k : Job T) : Type ℓ where
    pub to : Phase T
    pub move : Moves q to
    pub shows : Shows k to

  abbrev Then : Phase T → Option (Permits × Job T) → Type ℓ
  Then q none = Unit
  Then q (some (p, k)) = Moved q k

  taken-Then :
      (p : Permits) (j : Job T) (q : Phase T)
      → Moved q (record j { stage = granted })
      → Then q (taken p j)
  taken-Then p j q m = elim (Bool-cases (p.workers == 0)) [ inl e ↦ rw e tt | inr e ↦ rw e m ]

  -- The steps that each stage has.
  from_waiting :
      (e : Event T) (p : Permits) (j : Job T) (q : Phase T)
      → Then q (taken p j)
      → Then q (stopped p j)
      → Moved q (cancel_job j).1
      → Then q (task_step e waiting p j)
  from_waiting take_worker p j q a b c = a
  from_waiting see_cancel p j q a b c = b
  from_waiting start p j q a b c = tt
  from_waiting (finish r) p j q a b c = tt
  from_waiting cancel p j q a b c = c

  from_granted :
      (e : Event T) (p : Permits) (j : Job T) (q : Phase T)
      → Moved q (started p j).1
      → Moved q (cancel_job j).1
      → Then q (task_step e granted p j)
  from_granted take_worker p j q a c = tt
  from_granted see_cancel p j q a c = tt
  from_granted start p j q a c = a
  from_granted (finish r) p j q a c = tt
  from_granted cancel p j q a c = c

  from_runs :
      (e : Event T) (p : Permits) (j : Job T) (q : Phase T)
      → ((r : Option T) → Moved q (record j { result = some (ended r); stage = returned }))
      → Moved q (cancel_job j).1
      → Then q (task_step e runs p j)
  from_runs take_worker p j q a c = tt
  from_runs see_cancel p j q a c = tt
  from_runs start p j q a c = tt
  from_runs (finish r) p j q a c = a r
  from_runs cancel p j q a c = c

  from_returned :
      (e : Event T) (p : Permits) (j : Job T) (q : Phase T)
      → Moved q (cancel_job j).1
      → Then q (task_step e returned p j)
  from_returned take_worker p j q c = tt
  from_returned see_cancel p j q c = tt
  from_returned start p j q c = tt
  from_returned (finish r) p j q c = tt
  from_returned cancel p j q c = c

  moved : (q r : Phase T) (k : Job T) → Moves q r → Shows k r → Moved q k
  moved q r k m s = record { to = r; move = m; shows = s }

  stayed : (q : Phase T) (k : Job T) → Shows k q → Moved q k
  stayed q k s = moved q q k (stays q) s

  -- Every step of a job is a move of its phase.
  step-Moved :
      (e : Event T) (p : Permits) (j : Job T) (q : Phase T) → Shows j q → Then q (job_step e p j)
  unfolding job_step cancel_job
  step-Moved e p _ _ is_waiting =
      from_waiting e p _ _ (taken-Then p (job pending none false waiting) _ (stayed _ _ has_worker))
        tt (moved _ _ _ cancels gave_up_waiting)
  step-Moved e p _ _ has_worker =
      from_granted e p _ _ (moved _ _ _ begins is_running) (moved _ _ _ cancels gave_up_worker)
  step-Moved e p _ _ is_running =
      from_runs e p _ _ (λ r. moved _ _ _ (ends r) (has_ended r)) (stayed _ _ is_running)
  step-Moved e p _ _ (has_ended r) = from_returned e p _ _ (stayed _ _ (has_ended r))
  step-Moved e p _ _ gave_up_waiting =
      from_waiting e p _ _
        (taken-Then p (job cancelled_state (some cancelled) true waiting) _
          (stayed _ _ gave_up_worker))
        (stayed _ _ gave_up) (stayed _ _ gave_up_waiting)
  step-Moved e p _ _ gave_up_worker =
      from_granted e p _ _ (stayed _ _ gave_up) (stayed _ _ gave_up_worker)
  step-Moved e p _ _ gave_up = from_returned e p _ _ (stayed _ _ gave_up)

  -- The same, of a step that is known to be taken.
  pub job_step-Moved :
      (e : Event T) (p r : Permits) (j k : Job T) (q : Phase T)
      → Shows j q
      → job_step e p j ≡ some (r, k)
      → Moved q k
  job_step-Moved e p r j k q s h = subst (Then q) h (step-Moved e p j q s)
