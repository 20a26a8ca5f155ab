-- ===== src/Lanes/Ends.antt =====
-- A lane's jobs, each one followed from step to step.
use shimpz_admin.Prelude.{
  ℕ, zero, suc, ◌≡◌, refl, sym, ap, ◌∙◌, subst, List, [], ◌∷◌, ◌++◌, Option, some, arith, get_elem?,
  Option-cases, inl, inr,
}
use shimpz_admin.Lanes.{
  Job, Permits, Lane, Event, Ended, new_job, submit, job_step, jobs_step, Reached, here, by_submit,
  by_step,
}
use shimpz_admin.Lanes.Phases.{Phase, over, Moves, stays, Shows, Moved, job_step-Moved}

module _ {ℓ} {T : Type ℓ} where
  -- A job that a lane has, and a move of a phase to the one that it shows.
  pub record MovedAt (q : Phase T) (found : Option (Job T)) : Type ℓ where
    pub job : Job T
    pub is_found : found ≡ some job
    pub moved : Moved q job

  stays-MovedAt :
      (q : Phase T) (o : Option (Job T)) (j : Job T) → o ≡ some j → Shows j q → MovedAt q o
  stays-MovedAt q o j h s = record {
    job = j;
    is_found = h;
    moved = record { to = q; move = stays q; shows = s };
  }

  jobs_step-MovedAt :
      (index : ℕ) (e : Event T) (p r : Permits) (js ks : List (Job T))
      → jobs_step index e p js ≡ some (r, ks)
      → (n : ℕ) (j : Job T) (q : Phase T) → get_elem? js n ≡ some j
      → Shows j q
      → MovedAt q (get_elem? ks n)
  unfolding jobs_step
  jobs_step-MovedAt index e p r [] ks h n j q g s = ground (arith, h)
  jobs_step-MovedAt zero e p r (i ∷ js) ks h zero j q g s = elim (Option-cases (job_step e p i)) [
    | inl m ↦ ground (arith, m, h)
    | inr ((p', i'), m) ↦
        let f : get_elem? ks 0 ≡ some i' = ground (arith, m, h) in
        let g' : j ≡ i = ground (arith, g) in
        record {
          job = i';
          is_found = f;
          moved = job_step-Moved e p p' i i' q (subst (λ j. Shows j q) g' s) m;
        }
  ]
  jobs_step-MovedAt zero e p r (i ∷ js) ks h (suc n) j q g s =
      elim (Option-cases (job_step e p i)) [
        | inl m ↦ ground (arith, m, h)
        | inr ((p', i'), m) ↦
            let f : ks ≡ i' ∷ js = ground (arith, m, h) in
            stays-MovedAt q _ j (ap (λ ks. get_elem? ks (suc n)) f ∙ g) s
      ]
  jobs_step-MovedAt (suc index) e p r (i ∷ js) ks h zero j q g s =
      elim (Option-cases (jobs_step index e p js)) [
        | inl m ↦ ground (arith, m, h)
        | inr ((p', js'), m) ↦
            let f : ks ≡ i ∷ js' = ground (arith, m, h) in
            stays-MovedAt q _ j (ap (λ ks. get_elem? ks 0) f ∙ g) s
      ]
  jobs_step-MovedAt (suc index) e p r (i ∷ js) ks h (suc n) j q g s =
      elim (Option-cases (jobs_step index e p js)) [
        | inl m ↦ ground (arith, m, h)
        | inr ((p', js'), m) ↦
            let f : ks ≡ i ∷ js' = ground (arith, m, h) in
            subst (λ ks. MovedAt q (get_elem? ks (suc n))) (sym f)
              (jobs_step-MovedAt index e p p' js js' m n j q g s)
      ]

  get_elem?-prefix :
      (xs ys : List (Job T)) (n : ℕ) (j : Job T)
      → get_elem? xs n ≡ some j
      → get_elem? (xs ++ ys) n ≡ some j
  get_elem?-prefix [] ys n j h = ground (arith, h)
  get_elem?-prefix (x ∷ xs) ys zero j h = h
  get_elem?-prefix (x ∷ xs) ys (suc n) j h = get_elem?-prefix xs ys n j h

  pub submit-jobs : (l m : Lane T) → submit l ≡ some m → l.jobs ++ new_job ∷ [] ≡ m.jobs
  unfolding submit
  submit-jobs l m h = ground (arith, h)

  submit-found :
      (l m : Lane T)
      → submit l ≡ some m
      → (n : ℕ) (j : Job T) → get_elem? l.jobs n ≡ some j
      → get_elem? m.jobs n ≡ some j
  submit-found l m h n j g =
      subst (λ js. get_elem? js n ≡ some j) (submit-jobs l m h)
        (get_elem?-prefix l.jobs (new_job ∷ []) n j g)

  -- Moves of a phase, one after another.
  pub data Follows (q : Phase T) : Phase T → Type ℓ where
    same : Follows q q
    and_then : (r s : Phase T) → Follows q r → Moves r s → Follows q s

  over-final : (e : Ended T) (r : Phase T) → Moves (over e) r → r ≡ over e
  over-final e _ (stays _) = refl

  -- An end is final.
  pub over-Follows : (e : Ended T) (r : Phase T) → Follows (over e) r → r ≡ over e
  over-Follows e _ same = refl
  over-Follows e s (and_then r _ f m) =
      over-final e s (subst (λ r. Moves r s) (over-Follows e r f) m)

  -- A job that a lane has, and the phase that it shows, which follows a phase.
  pub record FollowedAt (q : Phase T) (found : Option (Job T)) : Type ℓ where
    pub job : Job T
    pub is_found : found ≡ some job
    pub to : Phase T
    pub follows : Follows q to
    pub shows : Shows job to

  -- A refinement of the phases by the code's jobs: a job that shows a phase goes on to show only phases
  -- that follow it by moves, whatever jobs are submitted, and whatever steps the jobs take, in any order.
  pub Reached-follows :
      (l m : Lane T)
      → Reached l m
      → (n : ℕ) (j : Job T) (q : Phase T) → get_elem? l.jobs n ≡ some j
      → Shows j q
      → FollowedAt q (get_elem? m.jobs n)
  Reached-follows l _ here n j q g s = record {
    job = j;
    is_found = g;
    to = q;
    follows = same;
    shows = s;
  }
  Reached-follows l m (by_submit k _ r h) n j q g s =
      let v = Reached-follows l k r n j q g s in
      let f : get_elem? m.jobs n ≡ some v.job = submit-found k m h n v.job v.is_found in
      record { job = v.job; is_found = f; to = v.to; follows = v.follows; shows = v.shows }
  Reached-follows l _ (by_step k p js index e r h) n j q g s =
      let v = Reached-follows l k r n j q g s in
      let w = jobs_step-MovedAt index e k.permits p k.jobs js h n v.job v.to v.is_found v.shows in
      record {
        job = w.job;
        is_found = w.is_found;
        to = w.moved.to;
        follows = and_then v.to w.moved.to v.follows w.moved.move;
        shows = w.moved.shows;
      }
