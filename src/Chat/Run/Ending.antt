-- ===== src/Chat/Run/Ending.antt =====
-- A run whose loop is over.
use shimpz_admin.Prelude.{
  ℕ, ◌≡◌, refl, sym, ◌∙◌, subst, Bool, true, false, not, ◌&&◌, ◌||◌, if◌then◌else◌, List, [], ◌∷◌,
  ◌++◌, append-nil, none, arith,
}
use shimpz_admin.Chat.Run.{Json, Queued, Run, submit, attach, receive, received, detach, end}
use shimpz_admin.Chat.Run.Traces.{
  Event, submits, attaches, detaches, receives, dispatches, publishes, ends, Trace, step,
  run_events, joined, joins, taken, watched, sync_frame,
}

module _ {V : Type 0} (json : Json V) where
  pub record IsEnded (r : Run V) : Type 0 where
    pub is_retired : r.retired ≡ true
    pub no_frames : r.frames ≡ []

  -- A run whose loop is over, with the frames of an earlier trace.
  pub record IsStill (t u : Trace V) : Type 0 where
    pub ended : IsEnded u.run
    pub accepted_same : u.accepted ≡ t.accepted
    pub received_same : u.received ≡ t.received

  submit-IsEnded :
      (takes : ℕ → V → Bool) (q : Queued V) (r : Run V)
      → IsEnded r
      → IsEnded (submit json takes q r).0
  unfolding submit
  submit-IsEnded takes q r v = record {
    is_retired = ground (arith, v.is_retired);
    no_frames = ground (arith, v.is_retired, v.no_frames);
  }

  detach-IsEnded : (o : ℕ) (r : Run V) → IsEnded r → IsEnded (detach o r)
  unfolding detach
  detach-IsEnded o r v = record {
    is_retired = ground (arith, v.is_retired);
    no_frames = ground (arith, v.no_frames);
  }

  received-ended : (r : Run V) → IsEnded r → (fs : List (Queued V)) → received r fs ≡ none
  received-ended r v [] = refl
  received-ended r v (f ∷ fs) = rw (v.is_retired) refl

  receive-ended : (r : Run V) → IsEnded r → receive r ≡ none
  unfolding receive
  receive-ended r v = received-ended r v r.frames

  -- No frame joins the queue.
  joins-ended : (r : Run V) → IsEnded r → joins json r ≡ false
  joins-ended r v = ground (arith, v.is_retired)

  joined-none :
      (b : Bool) (q : Queued V) (xs : List (Queued V)) → b ≡ false → xs ++ joined json b q ≡ xs
  joined-none b q xs h = rw h (append-nil xs)

  and-none : (b c : Bool) → c ≡ false → (b && c) ≡ false
  and-none b c h = ground (arith, h)

  attach-IsEnded :
      (takes : ℕ → V → Bool) (now o authority : ℕ) (sync : V) (r : Run V)
      → IsEnded r
      → IsEnded (attach json takes now o authority sync r).0
  unfolding attach
  attach-IsEnded takes now o authority sync r v =
      let w =
        submit-IsEnded takes (sync_frame json o authority sync) (watched json o r)
          (record { is_retired = v.is_retired; no_frames = v.no_frames }) in
      record {
        is_retired = ground (arith, v.is_retired, w.is_retired);
        no_frames = ground (arith, v.no_frames, w.no_frames);
      }

  end-IsEnded : (r : Run V) → IsEnded r → IsEnded (end r)
  unfolding end
  end-IsEnded r v = record {
    is_retired = ground (arith, v.is_retired);
    no_frames = ground (arith, v.no_frames);
  }

  still :
      (t u : Trace V) (r : Run V) (a : List (Queued V))
      → IsStill t u
      → IsEnded r
      → a ≡ u.accepted
      → IsStill t (record u { run = r; accepted = a })
  still t u r a v w h = record {
    ended = w;
    accepted_same = h ∙ v.accepted_same;
    received_same = v.received_same;
  }

  taken_first : (b : Bool) (t u : Trace V) → b ≡ true → (if b then t else u) ≡ t
  taken_first b t u h = ground (arith, h)

  pub step-IsStill : (e : Event V) (t u : Trace V) → IsStill t u → IsStill t (step json e u)
  unfolding step
  step-IsStill (submits takes q) t u v =
      still t u _ _ v (submit-IsEnded takes q u.run v.ended)
        (joined-none _ q u.accepted (joins-ended u.run v.ended))
  step-IsStill (attaches takes now o authority sync) t u v =
      still t u _ _ v (attach-IsEnded takes now o authority sync u.run v.ended)
        (joined-none _ _ u.accepted (and-none _ _ (joins-ended u.run v.ended)))
  step-IsStill (detaches o) t u v = still t u _ _ v (detach-IsEnded o u.run v.ended) refl
  step-IsStill receives t u v =
      subst (λ o. IsStill t (taken json u o)) (sym (receive-ended u.run v.ended)) v
  step-IsStill (dispatches q after proposal disconnected now) t u v =
      subst (IsStill t)
        (sym (
          taken_first (u.run.retired || not u.run.state.dispatching) u _
            (ground (arith, v.ended.is_retired))))
        v
  step-IsStill (publishes takes event) t u v =
      still t u _ _ v (record { is_retired = v.ended.is_retired; no_frames = v.ended.no_frames })
        refl
  step-IsStill ends t u v = still t u _ _ v (end-IsEnded u.run v.ended) refl

  run_events-IsStill :
      (es : List (Event V)) (t u : Trace V) → IsStill t u → IsStill t (run_events json es u)
  unfolding run_events
  run_events-IsStill [] t u v = v
  run_events-IsStill (e ∷ es) t u v = run_events-IsStill es t (step json e u) (step-IsStill e t u v)

  -- Once a run that had not begun to end is ended, its loop receives no frame any more and none is
  -- accepted, whatever happens, and the frames that waited are dropped: none waits any more.
  pub run_events-ended :
      (es : List (Event V)) (t : Trace V)
      → t.run.state.ending ≡ false
      → ((run_events json es (step json ends t)).accepted ≡ t.accepted)
        × ((run_events json es (step json ends t)).received ≡ t.received)
        × ((run_events json es (step json ends t)).run.frames ≡ [])
  unfolding step end
  run_events-ended es t h =
      let v : IsEnded (end t.run) = record {
        is_retired = ground (arith, h);
        no_frames = ground (arith, h);
      } in
      let w =
        run_events-IsStill es t (step json ends t)
          (record { ended = v; accepted_same = refl; received_same = refl }) in
      (w.accepted_same, w.received_same, w.ended.no_frames)
