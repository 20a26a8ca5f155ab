-- ===== src/Chat/Run/Frames.antt =====
-- The frames of a run, from the pages that send them to the loop that dispatches them.
use shimpz_admin.Prelude.{
  ℕ, ◌≤◌, ◌<◌, ◌≡◌, ◌⊎◌, refl, sym, ap, ◌∙◌, subst, Bool, true, false, not, ◌&&◌, ◌||◌, List, [],
  ◌∷◌, ◌++◌, append_assoc, append-nil, Option, none, some, arith, length, ltb, Bool-cases, inl, inr,
  length-append,
}
use shimpz_admin.Chat.Run.{
  max_waiting_frames, Json, Queued, Work, Run, busy, none_watches, retain_other, detach, submit,
  attach, receive, received, dispatched, end,
}
use shimpz_admin.Chat.Run.Traces.{
  Event, submits, attaches, detaches, receives, dispatches, publishes, ends, Trace, joined, joins,
  watched, sync_frame, taken, step, run_events, fresh,
}
use shimpz_admin.Chat.Run.Ending.{step-IsStill}

and_right : (a b : Bool) → (a && b) ≡ true → b ≡ true
and_right a b h = ground (arith, h)

module _ {V : Type 0} (json : Json V) where
  -- Frames are neither doubled nor reordered, and at most eight wait. While the loop goes on none is
  -- lost; once it is over none waits, and those that did are the last that were accepted.
  pub data IsTrace (t : Trace V) : Type 0 where
    goes_on :
        t.run.retired ≡ false
        → t.received ++ t.run.frames ≡ t.accepted
        → length t.run.frames ≤ 8
        → IsTrace t
    is_over :
        (lost : List (Queued V))
        → t.run.retired ≡ true
        → t.run.frames ≡ []
        → length lost ≤ 8
        → t.received ++ lost ≡ t.accepted
        → IsTrace t

  queue-IsTrace :
      (t : Trace V) (r : Run V) (q : Queued V) (b : Bool)
      → t.received ++ t.run.frames ≡ t.accepted
      → length t.run.frames ≤ 8
      → r.retired ≡ false
      → r.frames ≡ t.run.frames ++ joined json b q
      → (b ≡ true → length t.run.frames < 8)
      → IsTrace (record t { run = r; accepted = t.accepted ++ joined json b q })
  queue-IsTrace t r q b v w k h g =
      goes_on k
        (ap (λ x. t.received ++ x) h
          ∙ sym (append_assoc t.received t.run.frames (joined json b q))
          ∙ ap (λ x. x ++ joined json b q) v)
        (elim (Bool-cases b) [
          | inl e ↦
              let n : length (joined json b q) ≡ 1 = rw e refl in
              omega (arith, ap length h, length-append t.run.frames (joined json b q), g e, n)
          | inr e ↦
              let n : length (joined json b q) ≡ 0 = rw e refl in
              omega (arith, ap length h, length-append t.run.frames (joined json b q), w, n)
        ])

  -- A run whose loop goes on, with its frames, or is over.
  abbrev Moves : Run V → Run V → Type 0
  Moves r s = ((s.retired ≡ false) × (s.frames ≡ r.frames)) ⊎ ((s.retired ≡ true) × (s.frames ≡ []))

  with_run-IsTrace :
      (t : Trace V) (r : Run V)
      → t.received ++ t.run.frames ≡ t.accepted
      → length t.run.frames ≤ 8
      → Moves t.run r
      → IsTrace (record t { run = r })
  with_run-IsTrace t r v w (inl (k, h)) =
      goes_on k (ap (λ x. t.received ++ x) h ∙ v) (subst (λ x. length x ≤ 8) (sym h) w)
  with_run-IsTrace t r v w (inr (k, h)) = is_over t.run.frames k h w v

  submit-frames :
      (takes : ℕ → V → Bool) (q : Queued V) (r : Run V)
      → r.retired ≡ false
      → ((submit json takes q r).0.frames ≡ r.frames ++ joined json (joins json r) q)
        × ((submit json takes q r).0.retired ≡ false)
  unfolding submit
  submit-frames takes q r v = elim (Bool-cases r.connection.closed) [
    | inl e ↦ rw e (sym (append-nil r.frames), v)
    | inr e ↦ elim (Bool-cases (ltb (length r.frames) max_waiting_frames)) [
      | inl f ↦ rw (e, v, f) (refl, refl)
      | inr f ↦ rw (e, v, f) (sym (append-nil r.frames), refl)
    ]
  ]

  attach-frames :
      (takes : ℕ → V → Bool) (now o authority : ℕ) (sync : V) (r : Run V)
      → r.retired ≡ false
      → ((attach json takes now o authority sync r).0.frames
          ≡ r.frames
            ++ joined json
                (not (busy (watched json o r)) && joins json r)
                (sync_frame json o authority sync))
        × ((attach json takes now o authority sync r).0.retired ≡ false)
  unfolding attach
  attach-frames takes now o authority sync r v = elim (Bool-cases (busy (watched json o r))) [
    | inl e ↦ rw e (sym (append-nil r.frames), v)
    | inr e ↦ rw e (submit-frames takes (sync_frame json o authority sync) (watched json o r) v)
  ]

  joins-room : (r : Run V) → joins json r ≡ true → length r.frames < 8
  joins-room r h = ground (arith, h)

  detach-Moves : (o : ℕ) (r : Run V) → r.retired ≡ false → Moves r (detach o r)
  unfolding detach
  detach-Moves o r v = elim (Bool-cases (none_watches (retain_other o r.state).observers)) [
    | inr e ↦ rw e (inl (v, refl))
    | inl e ↦
        elim (Bool-cases (
          busy (record r {
            state = retain_other o r.state;
            connection = record (r.connection) { lifecycle_proposal = none };
          }))) [ inl b ↦ rw (e, b) (inl (v, refl)) | inr b ↦ rw (e, b) (inr (refl, refl)) ]
  ]

  received-frames :
      (r s : Run V) (q : Queued V) (fs : List (Queued V))
      → received r fs ≡ some (q, s)
      → (fs ≡ q ∷ s.frames) × (s.retired ≡ r.retired)
  received-frames r s q [] h = ground (arith, h)
  received-frames r s q (f ∷ fs) h = elim (Bool-cases (r.retired || r.state.dispatching)) [
    | inl e ↦ ground (arith, e, h)
    | inr e ↦ ground (arith, e, h)
  ]

  receive-frames :
      (r s : Run V) (q : Queued V)
      → receive r ≡ some (q, s)
      → (r.frames ≡ q ∷ s.frames) × (s.retired ≡ r.retired)
  unfolding receive
  receive-frames r s q h = received-frames r s q r.frames h

  dispatched-Moves :
      (q : Queued V) (after : Work) (proposal : Option ℕ) (disconnected : Bool) (now : ℕ)
      (r : Run V)
      → r.retired ≡ false
      → Moves r (dispatched q after proposal disconnected now r).0
  unfolding dispatched
  dispatched-Moves q after proposal true now r v = inr (refl, refl)
  dispatched-Moves q after proposal false now r v = inl (v, refl)

  end-Moves : (r : Run V) → r.retired ≡ false → Moves r (end r)
  unfolding end
  end-Moves r v = elim (Bool-cases r.state.ending) [
    | inl e ↦ rw e (inl (v, refl))
    | inr e ↦ rw e (inr (refl, refl))
  ]

  taken-IsTrace :
      (t : Trace V)
      → t.run.retired ≡ false
      → t.received ++ t.run.frames ≡ t.accepted
      → length t.run.frames ≤ 8
      → (o : Option (Queued V × Run V)) → receive t.run ≡ o
      → IsTrace (taken json t o)
  taken-IsTrace t k v w none h = goes_on k v w
  taken-IsTrace t k v w (some (q, r)) h =
      let (e, g) = receive-frames t.run r q h in
      goes_on (g ∙ k)
        (append_assoc t.received (q ∷ []) r.frames ∙ ap (λ x. t.received ++ x) (sym e) ∙ v)
        (omega (arith, ap length e, w))

  live-IsTrace :
      (e : Event V) (t : Trace V)
      → t.run.retired ≡ false
      → t.received ++ t.run.frames ≡ t.accepted
      → length t.run.frames ≤ 8
      → IsTrace (step json e t)
  unfolding step
  live-IsTrace (submits takes q) t k v w =
      let (f, g) = submit-frames takes q t.run k in
      queue-IsTrace t _ q (joins json t.run) v w g f (joins-room t.run)
  live-IsTrace (attaches takes now o authority sync) t k v w =
      let (f, g) = attach-frames takes now o authority sync t.run k in
      queue-IsTrace t _ (sync_frame json o authority sync) _ v w g f
        (λ h. joins-room t.run (and_right _ _ h))
  live-IsTrace (detaches o) t k v w = with_run-IsTrace t _ v w (detach-Moves o t.run k)
  live-IsTrace receives t k v w = taken-IsTrace t k v w (receive t.run) refl
  live-IsTrace (dispatches q after proposal disconnected now) t k v w =
      elim (Bool-cases (t.run.retired || not t.run.state.dispatching)) [
        | inl e ↦ rw e (goes_on k v w)
        | inr e ↦
            rw e (
              with_run-IsTrace t _ v w (dispatched-Moves q after proposal disconnected now t.run k))
      ]
  live-IsTrace (publishes takes event) t k v w = goes_on k v w
  live-IsTrace ends t k v w = with_run-IsTrace t _ v w (end-Moves t.run k)

  step-IsTrace : (e : Event V) (t : Trace V) → IsTrace t → IsTrace (step json e t)
  step-IsTrace e t (goes_on k v w) = live-IsTrace e t k v w
  step-IsTrace e t (is_over lost k n l v) =
      let s = step-IsStill json e t t (record {
        ended = record { is_retired = k; no_frames = n };
        accepted_same = refl;
        received_same = refl;
      }) in
      is_over lost s.ended.is_retired s.ended.no_frames l
        (ap (λ x. x ++ lost) s.received_same ∙ v ∙ sym s.accepted_same)

  run_events-Keeps :
      (es : List (Event V)) (t : Trace V) → IsTrace t → IsTrace (run_events json es t)
  unfolding run_events
  run_events-Keeps [] t v = v
  run_events-Keeps (e ∷ es) t v = run_events-Keeps es (step json e t) (step-IsTrace e t v)

  -- However pages send frames, attach and leave, and however frames are dispatched, events published and
  -- the run ended: while the loop of a new run goes on, the frames that it received, followed by those
  -- that wait, are the frames that were accepted, in their order, and no more than eight wait; once the
  -- loop is over none waits, and the frames that it received are those accepted, less the last ones, at
  -- most eight, which are dropped.
  pub run_events-IsTrace : (es : List (Event V)) → IsTrace (run_events json es (fresh json))
  run_events-IsTrace es = run_events-Keeps es (fresh json) (goes_on refl refl (omega arith))
