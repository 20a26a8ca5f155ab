-- ===== src/Chat/Gate/Reachable.antt =====
-- What holds of the gate after every sequence of events.
use shimpz_admin.Prelude.{
  ◌-◌, ◌<◌, ◌≡◌, ◌≢◌, refl, inl, inr, Bool, true, false, List, [], ◌∷◌, none, some, arith,
  Option-cases, ltb→lt,
}
use shimpz_admin.Chat.Gate.{initial}
use shimpz_admin.Chat.Gate.System.{
  System, Event, start, step, run, when, Then, limit_set, ask, answer, stop_asking, stop_answered,
  arrive, resume, abandon, give_back, busy_leave, busy_rest, rest_over, rest_cut, come_back,
}
use shimpz_admin.Chat.Gate.Invariant.{Inv, busy}
use shimpz_admin.Chat.Gate.Steps.{
  limit_set-Inv, release-Inv, rest_cut-Inv, rest_over-Inv, busy_rest-Inv, answer-Inv, reading-Inv,
  resume-Inv, ask-Inv,
}
use shimpz_admin.Chat.Gate.Arrivals.{arrive-Inv, come_back-Inv, abandon-Inv, length-without}

start-Inv : Inv start
unfolding initial
start-Inv = record {
  agrees = record {
    known = λ _. refl;
    slots = refl;
    rests = refl;
    reads = refl;
    asks = λ _. refl;
    idle = λ _. refl;
  };
  served = λ _ _. inl refl;
  placed = tt;
}

-- A guarded event keeps what its guard lets it keep.
when-Then : (P : System → Type 0) (b : Bool) (t : System) → (b ≡ true → P t) → Then P (when b t)
when-Then P true t h = h refl
when-Then P false t h = tt

known_of_busy : (s : System) → Inv s → 0 < busy s → s.gate.limit ≢ none
known_of_busy s v h e = omega (arith, v.agrees.idle e)

step-Inv : (e : Event) (s : System) → Inv s → Then Inv (step e s)
unfolding step
step-Inv (limit_set l) s v = limit_set-Inv s v l
step-Inv ask s v = ask-Inv s v
step-Inv (answer a) s v = when-Then Inv _ _ λ _. answer-Inv s v a
step-Inv stop_asking s v =
    when-Then Inv _ _ λ h. let h' = ltb→lt _ _ h in reading-Inv s v _ _ (omega arith) (omega arith)
step-Inv stop_answered s v =
    when-Then Inv _ _ λ h. let h' = ltb→lt _ _ h in reading-Inv s v _ _ (omega arith) (omega arith)
step-Inv (arrive position) s v = when-Then Inv _ _ λ h. arrive-Inv s position v (λ e. ground arith)
step-Inv (resume id) s v = when-Then Inv _ _ λ h. resume-Inv s v _ (length-without id s.granted h)
step-Inv (abandon id) s v = abandon-Inv s v id
step-Inv give_back s v = when-Then Inv _ _ λ h. release-Inv s v s.leaving (ltb→lt _ _ h)
step-Inv busy_leave s v = when-Then Inv _ _ λ h. release-Inv s v _ (ltb→lt _ _ h)
step-Inv busy_rest s v = when-Then Inv _ _ λ h. busy_rest-Inv s v (ltb→lt _ _ h)
step-Inv rest_over s v = when-Then Inv _ _ λ h. rest_over-Inv s v (ltb→lt _ _ h)
step-Inv rest_cut s v = when-Then Inv _ _ λ h. rest_cut-Inv s v (ltb→lt _ _ h)
step-Inv (come_back position) s v = when-Then Inv _ _ λ h.
    let h' = ltb→lt 0 s.returning h in
    let known = known_of_busy s v (omega arith) in
    come_back-Inv (record s { returning = s.returning - 1 }) position known
      (record {
        known = v.agrees.known;
        slots = v.agrees.slots;
        rests = v.agrees.rests;
        reads = v.agrees.reads;
        asks = v.agrees.asks;
        idle = λ e. absurd (known e);
      })
      v.placed

-- An invariant of the steps holds after a run.
run-Then :
    (P : System → Type 0)
    → ((e : Event) (s : System) → P s → Then P (step e s))
    → (es : List Event) (s : System) → P s
    → Then P (run es s)
unfolding run
run-Then P kept [] s p = p
run-Then P kept (e ∷ es) s p = elim (Option-cases (step e s)) [
  | inl h ↦ rw (h, run) tt
  | inr (t, h) ↦ rw (h, run) (run-Then P kept es t (rw h at (kept e s p)))
]

-- After every sequence of events from the fresh gate, the count of running operations is that of the
-- slots granted or held, the counts of resting and reading operations are right, every waiter was
-- told its place, nobody waits for a limit that is not being read, and, unless an operation rests or
-- is on its way back, nobody waits while a slot is free.
pub run-Inv : (es : List Event) (s : System) → run es start ≡ some s → Inv s
run-Inv es s h = rw h at (run-Then Inv step-Inv es start start-Inv)
