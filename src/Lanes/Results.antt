-- ===== src/Lanes/Results.antt =====
-- A job's end, once it has one.
use shimpz_admin.Prelude.{
  ℕ, zero, suc, ◌≡◌, ◌≢◌, refl, sym, ap, ◌∙◌, subst, true, List, [], ◌∷◌, ◌++◌, Option, none, some,
  arith, get_elem?, Option-cases, inl, inr,
}
use shimpz_admin.Lanes.{
  Job, runs, Permits, Lane, Event, Ended, cancelled, new, new_job, job_step, jobs_step, cancel_job,
  Reached, here, by_submit, by_step, cancel,
}
use shimpz_admin.Lanes.Phases.{
  Phase, awaits, over, Shows, is_waiting, has_worker, is_running, has_ended, gave_up_waiting,
  gave_up_worker, gave_up, job_step-Moved,
}
use shimpz_admin.Lanes.Ends.{FollowedAt, Reached-follows, over-Follows, submit-jobs}

module _ {ℓ} {T : Type ℓ} where
  -- Every job of the list shows a phase.
  data Shown : List (Job T) → Type ℓ where
    nothing : Shown []
    another : (j : Job T) (q : Phase T) (js : List (Job T)) → Shows j q → Shown js → Shown (j ∷ js)

  Shown-append : (js : List (Job T)) → Shown js → Shown (js ++ new_job ∷ [])
  Shown-append _ nothing = another _ awaits _ is_waiting nothing
  Shown-append _ (another j q js s v) = another j q _ s (Shown-append js v)

  jobs_step-Shown :
      (index : ℕ) (e : Event T) (p r : Permits) (js ks : List (Job T))
      → jobs_step index e p js ≡ some (r, ks)
      → Shown js
      → Shown ks
  unfolding jobs_step
  jobs_step-Shown index e p r _ ks h nothing = ground (arith, h)
  jobs_step-Shown zero e p r _ ks h (another i q js s v) = elim (Option-cases (job_step e p i)) [
    | inl m ↦ ground (arith, m, h)
    | inr ((p', i'), m) ↦
        let w = job_step-Moved e p p' i i' q s m in
        let f : i' ∷ js ≡ ks = ground (arith, m, h) in subst Shown f (another i' w.to js w.shows v)
  ]
  jobs_step-Shown (suc index) e p r _ ks h (another i q js s v) =
      elim (Option-cases (jobs_step index e p js)) [
        | inl m ↦ ground (arith, m, h)
        | inr ((p', js'), m) ↦
            let f : i ∷ js' ≡ ks = ground (arith, m, h) in
            subst Shown f (another i q js' s (jobs_step-Shown index e p p' js js' m v))
      ]

  Reached-Shown : (w o : ℕ) (l : Lane T) → Reached (new w o) l → Shown l.jobs
  Reached-Shown w o _ here = nothing
  Reached-Shown w o m (by_submit l _ r h) =
      subst Shown (submit-jobs l m h) (Shown-append l.jobs (Reached-Shown w o l r))
  Reached-Shown w o _ (by_step l p js index e r h) =
      jobs_step-Shown index e l.permits p l.jobs js h (Reached-Shown w o l r)

  pub record ShownPhase (j : Job T) : Type ℓ where
    pub phase : Phase T
    pub shows : Shows j phase

  Shown-found :
      (js : List (Job T)) → Shown js → (n : ℕ) (j : Job T) → get_elem? js n ≡ some j → ShownPhase j
  Shown-found _ nothing n j h = ground (arith, h)
  Shown-found _ (another i q js s v) zero j h =
      let e : i ≡ j = ground (arith, h) in subst ShownPhase e (record { phase = q; shows = s })
  Shown-found _ (another i q js s v) (suc n) j h = Shown-found js v n j h

  -- A job of a lane that began empty shows a phase.
  pub Reached-shows :
      (w o : ℕ) (l : Lane T)
      → Reached (new w o) l
      → (n : ℕ) (j : Job T) → get_elem? l.jobs n ≡ some j
      → ShownPhase j
  Reached-shows w o l r n j h = Shown-found l.jobs (Reached-Shown w o l r) n j h

  abbrev over_or : Option (Ended T) → Phase T
  over_or none = awaits
  over_or (some e) = over e

  shows-over : (j : Job T) (q : Phase T) (e : Ended T) → Shows j q → j.result ≡ some e → q ≡ over e
  shows-over _ _ e is_waiting h = ground (arith, h)
  shows-over _ _ e has_worker h = ground (arith, h)
  shows-over _ _ e is_running h = ground (arith, h)
  shows-over _ _ e (has_ended r) h = ap (λ o. over_or o) h
  shows-over _ _ e gave_up_waiting h = ap (λ o. over_or o) h
  shows-over _ _ e gave_up_worker h = ap (λ o. over_or o) h
  shows-over _ _ e gave_up h = ap (λ o. over_or o) h

  over-shows : (j : Job T) (e : Ended T) → Shows j (over e) → (j.result ≡ some e) × (j.stage ≢ runs)
  over-shows _ _ (has_ended r) = (refl, λ h. ground (arith, h))
  over-shows _ _ gave_up_waiting = (refl, λ h. ground (arith, h))
  over-shows _ _ gave_up_worker = (refl, λ h. ground (arith, h))
  over-shows _ _ gave_up = (refl, λ h. ground (arith, h))

  cancel_job-shows :
      (j : Job T) (q : Phase T)
      → Shows j q
      → (cancel_job j).0 ≡ true
      → Shows (cancel_job j).1 (over cancelled)
  unfolding cancel_job
  cancel_job-shows _ _ is_waiting h = gave_up_waiting
  cancel_job-shows _ _ has_worker h = gave_up_worker
  cancel_job-shows _ _ is_running h = ground (arith, h)
  cancel_job-shows _ _ (has_ended r) h = ground (arith, h)
  cancel_job-shows _ _ gave_up_waiting h = gave_up_waiting
  cancel_job-shows _ _ gave_up_worker h = gave_up_worker
  cancel_job-shows _ _ gave_up h = gave_up

  -- The end of a job that a lane has, and whether its task runs it.
  pub record EndedAt (e : Ended T) (found : Option (Job T)) : Type ℓ where
    pub job : Job T
    pub is_found : found ≡ some job
    pub result_is : job.result ≡ some e
    pub idle : job.stage ≢ runs

  over-EndedAt : (e : Ended T) (o : Option (Job T)) → FollowedAt (over e) o → EndedAt e o
  over-EndedAt e o v =
      let s = subst (Shows v.job) (over-Follows e v.to v.follows) v.shows in
      let (a, b) = over-shows v.job e s in
      record { job = v.job; is_found = v.is_found; result_is = a; idle = b }

  -- The result that a job of a lane has is the result that it keeps, and the job runs no more, whatever
  -- is submitted, cancelled and run later on.
  pub Reached-result :
      (w o : ℕ) (l m : Lane T)
      → Reached (new w o) l
      → Reached l m
      → (n : ℕ) (j : Job T) (e : Ended T) → get_elem? l.jobs n ≡ some j
      → j.result ≡ some e
      → EndedAt e (get_elem? m.jobs n)
  Reached-result w o l m r t n j e g h =
      let v = Reached-shows w o l r n j g in
      let s = subst (Shows j) (shows-over j v.phase e v.shows h) v.shows in
      over-EndedAt e _ (Reached-follows l m t n j (over e) g s)

  cancel-found :
      (n : ℕ) (p r : Permits) (js ks : List (Job T)) (j : Job T)
      → get_elem? js n ≡ some j
      → jobs_step n cancel p js ≡ some (r, ks)
      → get_elem? ks n ≡ some (cancel_job j).1
  unfolding jobs_step job_step
  cancel-found n p r [] ks j g h = ground (arith, h)
  cancel-found zero p r (i ∷ js) ks j g h =
      let e : i ≡ j = ground (arith, g) in
      let f : (cancel_job i).1 ∷ js ≡ ks = ground (arith, h) in
      ap (λ ks. get_elem? ks 0) (sym f) ∙ ap (λ j. some (cancel_job j).1) e
  cancel-found (suc n) p r (i ∷ js) ks j g h = elim (Option-cases (jobs_step n cancel p js)) [
    | inl m ↦ ground (arith, m, h)
    | inr ((p', js'), m) ↦
        let f : ks ≡ i ∷ js' = ground (arith, m, h) in
        ap (λ ks. get_elem? ks (suc n)) f ∙ cancel-found n p p' js js' j g m
  ]

  -- A job whose cancellation answers that it will never start has the result `cancelled` and does not
  -- run, whatever is submitted, cancelled and run later on.
  pub cancel_job-never :
      (w o : ℕ) (l m : Lane T)
      → Reached (new w o) l
      → (n : ℕ) (j : Job T) (p : Permits) (js : List (Job T)) → get_elem? l.jobs n ≡ some j
      → (cancel_job j).0 ≡ true
      → jobs_step n cancel l.permits l.jobs ≡ some (p, js)
      → Reached (record { permits = p; jobs = js }) m
      → EndedAt cancelled (get_elem? m.jobs n)
  cancel_job-never w o l m r n j p js g a h t =
      let v = Reached-shows w o l r n j g in
      over-EndedAt cancelled _ (
        Reached-follows _ m t n (cancel_job j).1 (over cancelled)
          (cancel-found n l.permits p l.jobs js j g h) (cancel_job-shows j v.phase v.shows a))
