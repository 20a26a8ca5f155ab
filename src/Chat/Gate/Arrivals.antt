-- ===== src/Chat/Gate/Arrivals.antt =====
-- Arrivals and departures at the queue keep the gate's invariant.
use shimpz_admin.Prelude.{
  ℕ, ◌+◌, ◌≡◌, ◌≢◌, refl, inl, inr, Bool, true, false, List, [], ◌∷◌, none, arith, length,
  length-append, Bool-cases, leb, ◌==◌, if◌then◌else◌,
}
use shimpz_admin.Chat.Gate.{
  Waiter, GateState, Granting, entered, refused, queue_full, max_waiting, queued, grant, starts,
  joined, join, acquire, leave, waits_for, remove_waiter,
}
use shimpz_admin.Chat.Gate.Grant.{IsPlaced, IsDrained, grant-IsDrained, tell-IsPlaced, tell-nil}
use shimpz_admin.Chat.Gate.System.{System, grants, admits, step_abandon, holds, without, Then}
use shimpz_admin.Chat.Gate.Invariant.{Agrees, Inv}
use shimpz_admin.Chat.Gate.Steps.{grants-Agrees, ungrant-Inv}

module _ (s : System) (position : ℕ) (known : s.gate.limit ≢ none) (r : Agrees s s.gate) where
  entered-Inv :
      (head : Bool)
      → starts head s.gate ≡ true
      → IsPlaced 0 s.gate.waiting
      → Inv (
          admits s
            (entered, (record s.gate { running = s.gate.running + 1 }, [], (position, none) ∷ [])))
  entered-Inv head e placed = record {
    agrees = record {
      known = r.known;
      slots = omega (arith, r.slots, length-append s.granted []);
      rests = r.rests;
      reads = r.reads;
      asks = r.asks;
      idle = λ f. absurd (known f);
    };
    served = λ _ _. ground arith;
    placed = placed;
  }

  refused-Inv : Inv s → Inv (admits s (refused queue_full, (s.gate, [], [])))
  refused-Inv v = record {
    agrees = record {
      known = r.known;
      slots = omega (arith, r.slots, length-append s.granted []);
      rests = r.rests;
      reads = r.reads;
      asks = r.asks;
      idle = λ f. absurd (known f);
    };
    served = v.served;
    placed = v.placed;
  }

  joined-Agrees : (head : Bool) → Agrees s (joined position head s.gate)
  joined-Agrees head = record {
    known = λ f. absurd (known f);
    slots = r.slots;
    rests = r.rests;
    reads = r.reads;
    asks = r.asks;
    idle = λ f. absurd (known f);
  }

-- The places are told once more after an arrival.
join-Inv :
    (s : System) (id : ℕ) (g : Granting)
    → Agrees (grants s g) g.0
    → (s.resting ≡ 0 → IsDrained g.0)
    → Inv (admits s (join id g))
join-Inv s id g t d = record {
  agrees = record {
    known = λ e. tell-nil 0 g.0.waiting (t.known e);
    slots = t.slots;
    rests = t.rests;
    reads = t.reads;
    asks = t.asks;
    idle = t.idle;
  };
  served = λ e _. ground (arith, d e, tell-nil 0 g.0.waiting);
  placed = tell-IsPlaced 0 g.0.waiting;
}

queue-Inv :
    (s : System) (position : ℕ) (head : Bool)
    → s.gate.limit ≢ none
    → Agrees s s.gate
    → Inv (
        admits s (
          join (s.gate.next + 1) (
            if s.gate.resting == 0
            then grant (joined position head s.gate)
            else (joined position head s.gate, [], []))))
queue-Inv s position head known r = elim (Bool-cases (s.gate.resting == 0)) [
  | inl e ↦ rw e (
      join-Inv s (s.gate.next + 1) (grant joining)
        (grants-Agrees s joining (joined-Agrees s position known r head))
        (λ _. grant-IsDrained joining))
  | inr e ↦ rw e (
      join-Inv s (s.gate.next + 1) (joining, [], [])
        (record {
          known = λ f. absurd (known f);
          slots = omega (arith, r.slots, length-append s.granted []);
          rests = r.rests;
          reads = r.reads;
          asks = r.asks;
          idle = λ f. absurd (known f);
        })
        (λ f. absurd (ground (arith, r.rests))))
]
  where
    joining : GateState
    joining = joined position head s.gate

-- A new operation arrives, at a gate that knows its limit.
pub arrive-Inv :
    (s : System) (position : ℕ)
    → Inv s
    → s.gate.limit ≢ none
    → Inv (admits s (acquire position false s.gate))
unfolding acquire
arrive-Inv s position v known = elim (Bool-cases (starts false s.gate)) [
  | inl e ↦ rw (e, acquire) (entered-Inv s position known v.agrees false e v.placed)
  | inr e ↦ elim (Bool-cases (leb max_waiting (queued s.gate))) [
    | inl f ↦ rw (e, f, acquire) (refused-Inv s position known v.agrees v)
    | inr f ↦ rw (e, f, acquire) (queue-Inv s position false known v.agrees)
  ]
]

-- A rested operation comes back to the head of the queue; the bound does not hold it up.
pub come_back-Inv :
    (s : System) (position : ℕ)
    → s.gate.limit ≢ none
    → Agrees s s.gate
    → IsPlaced 0 s.gate.waiting
    → Inv (admits s (acquire position true s.gate))
unfolding acquire
come_back-Inv s position known r placed = elim (Bool-cases (starts true s.gate)) [
  | inl e ↦ rw (e, acquire) (entered-Inv s position known r true e placed)
  | inr e ↦ rw (e, acquire) (queue-Inv s position true known r)
]

remove_waiter-nil : (id : ℕ) (ws : List Waiter) → ws ≡ [] → remove_waiter id ws ≡ []
remove_waiter-nil id [] h = refl
remove_waiter-nil id (w ∷ ws) h = cc

pub length-without :
    (i : ℕ) (js : List ℕ) → holds i js ≡ true → length js ≡ length (without i js) + 1
length-without i [] h = cc
length-without i (j ∷ js) h = ground (arith, length-without i js)

module _ (s : System) (v : Inv s) where
  leave_queue-Inv : (id : ℕ) → waits_for id s.gate.waiting ≡ true → Inv (grants s (leave id s.gate))
  unfolding leave
  leave_queue-Inv id e =
      rw (e, leave)
        (record {
          agrees = record {
            known = λ f. ground (
              arith,
              v.agrees.known f,
              tell-nil 0 (remove_waiter id s.gate.waiting),
              remove_waiter-nil id s.gate.waiting,
            );
            slots = omega (arith, v.agrees.slots, length-append s.granted []);
            rests = v.agrees.rests;
            reads = v.agrees.reads;
            asks = v.agrees.asks;
            idle = λ f. omega (arith, v.agrees.idle f, length-append s.granted []);
          };
          served = λ f g. ground (
            arith,
            v.served f g,
            tell-nil 0 (remove_waiter id s.gate.waiting),
            remove_waiter-nil id s.gate.waiting,
          );
          placed = tell-IsPlaced 0 (remove_waiter id s.gate.waiting);
        })

  -- A wait that is dropped leaves the queue, or gives back the slot it was granted.
  pub abandon-Inv : (id : ℕ) → Then Inv (step_abandon id s)
  unfolding step_abandon
  abandon-Inv id = elim (Bool-cases (waits_for id s.gate.waiting)) [
    | inl e ↦ rw (e, step_abandon) (leave_queue-Inv id e)
    | inr e ↦ elim (Bool-cases (holds id s.granted)) [
      | inl f ↦ rw (e, f, step_abandon) (leave_granted id e f)
      | inr f ↦ rw (e, f, step_abandon) tt
    ]
  ]
    where
      leave_granted :
          (i : ℕ)
          → waits_for i s.gate.waiting ≡ false
          → holds i s.granted ≡ true
          → Inv (grants (record s { granted = without i s.granted }) (leave i s.gate))
      leave_granted i e f =
          unfold leave in
          rw (e, leave) (ungrant-Inv s v (without i s.granted) (length-without i s.granted f))
