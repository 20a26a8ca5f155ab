-- ===== src/Chat/Gate/Steps.antt =====
-- The events that end in `GateState::grant`, and those that only count, keep the gate's invariant.
use shimpz_admin.Prelude.{
  ℕ, ◌+◌, ◌-◌, ◌<◌, ◌≡◌, refl, inl, inr, true, false, List, [], ◌++◌, ◌≤◌, Option, some, arith,
  length, length-append, Bool-cases, leb,
}
use shimpz_admin.Prelude.Int.{ℤ}
use shimpz_admin.Chat.Gate.{
  GateState, max_waiting, queued, grant, release, set_limit, rest_begin, rest_end, read_begin,
  read_answer, read_end,
}
use shimpz_admin.Chat.Gate.Grant.{
  ids, IsPlaced, length-ids, grant_count, grant-IsDrained, grant-IsPlaced, grant_limit,
  grant_resting, grant_reading, grant_empty, grant_none, grant_limit_read,
}
use shimpz_admin.Chat.Gate.System.{System, grants, step_ask, Then}
use shimpz_admin.Chat.Gate.Invariant.{Agrees, Inv}

pub grants-Agrees :
    (s : System) (g : GateState) → Agrees s g → Agrees (grants s (grant g)) (grant g).0
grants-Agrees s g r = record {
  known = λ e. ground (arith, grant_limit g, grant_empty g, r.known);
  slots = omega (arith, grant_count g, length-ids (grant g).1, added, r.slots);
  rests = omega (arith, grant_resting g, r.rests);
  reads = omega (arith, grant_reading g, r.reads);
  asks = λ e. ground (arith, grant_limit_read g, r.asks);
  idle = λ e. ground (arith, grant_limit g, grant_none g, r.known, r.idle, added);
}
  where
    added : length (s.granted ++ ids (grant g).1) ≡ length s.granted + length (ids (grant g).1)
    added = length-append s.granted (ids (grant g).1)

grants-Inv :
    (s : System) (g : GateState) → Agrees s g → IsPlaced 0 g.waiting → Inv (grants s (grant g))
grants-Inv s g r placed = record {
  agrees = grants-Agrees s g r;
  served = λ _ _. grant-IsDrained g;
  placed = grant-IsPlaced g placed;
}

module _ (s : System) (v : Inv s) where
  pub limit_set-Inv : (l : ℤ) → Inv (grants s (set_limit l s.gate))
  unfolding set_limit
  limit_set-Inv l =
      grants-Inv s (record s.gate { limit = some l })
        (record {
          known = λ e. cc;
          slots = v.agrees.slots;
          rests = v.agrees.rests;
          reads = v.agrees.reads;
          asks = v.agrees.asks;
          idle = λ e. cc;
        })
        v.placed

  -- A holder gives its slot back, for good or to rest.
  pub release-Inv :
      (n : ℕ)
      → 0 < s.holders
      → Inv (grants (record s { holders = s.holders - 1; leaving = n }) (release s.gate))
  unfolding release
  release-Inv n h =
      grants-Inv (record s { holders = s.holders - 1; leaving = n })
        (record s.gate { running = s.gate.running - 1 })
        (record {
          known = v.agrees.known;
          slots = omega (arith, v.agrees.slots);
          rests = v.agrees.rests;
          reads = v.agrees.reads;
          asks = v.agrees.asks;
          idle = λ e. absurd (omega (arith, v.agrees.idle e));
        })
        v.placed

  -- A granted operation that never resumed gives its slot back.
  pub ungrant-Inv :
      (is : List ℕ)
      → length s.granted ≡ length is + 1
      → Inv (grants (record s { granted = is }) (release s.gate))
  unfolding release
  ungrant-Inv is h =
      grants-Inv (record s { granted = is }) (record s.gate { running = s.gate.running - 1 })
        (record {
          known = v.agrees.known;
          slots = omega (arith, v.agrees.slots);
          rests = v.agrees.rests;
          reads = v.agrees.reads;
          asks = v.agrees.asks;
          idle = λ e. absurd (omega (arith, v.agrees.idle e));
        })
        v.placed

  pub rest_cut-Inv :
      0 < s.resting → Inv (grants (record s { resting = s.resting - 1 }) (rest_end true s.gate))
  unfolding rest_end
  rest_cut-Inv h =
      grants-Inv (record s { resting = s.resting - 1 })
        (record s.gate { resting = s.gate.resting - 1 })
        (record {
          known = v.agrees.known;
          slots = v.agrees.slots;
          rests = omega (arith, v.agrees.rests);
          reads = v.agrees.reads;
          asks = v.agrees.asks;
          idle = λ e. absurd (omega (arith, v.agrees.idle e));
        })
        v.placed

  pub rest_over-Inv :
      0 < s.resting
      → Inv (
          grants
            (record s { resting = s.resting - 1; returning = s.returning + 1 })
            (rest_end false s.gate))
  unfolding rest_end
  rest_over-Inv h = record {
    agrees = record {
      known = v.agrees.known;
      slots = omega (arith, v.agrees.slots, length-append s.granted []);
      rests = omega (arith, v.agrees.rests);
      reads = v.agrees.reads;
      asks = v.agrees.asks;
      idle = λ e. absurd (omega (arith, v.agrees.idle e));
    };
    served = λ _ e. absurd (omega arith);
    placed = v.placed;
  }

  pub busy_rest-Inv :
      0 < s.leaving
      → Inv
          (record s { gate = rest_begin s.gate; leaving = s.leaving - 1; resting = s.resting + 1 })
  unfolding rest_begin
  busy_rest-Inv h = record {
    agrees = record {
      known = v.agrees.known;
      slots = v.agrees.slots;
      rests = omega (arith, v.agrees.rests);
      reads = v.agrees.reads;
      asks = v.agrees.asks;
      idle = λ e. absurd (omega (arith, v.agrees.idle e));
    };
    served = λ e _. absurd (omega arith);
    placed = v.placed;
  }

  pub answer-Inv :
      (a : Option ℤ)
      → Inv (record s { gate = read_answer a s.gate; asking = 0; answered = s.answered + s.asking })
  unfolding read_answer
  answer-Inv a = record {
    agrees = record {
      known = λ e. ground (arith, v.agrees.known);
      slots = v.agrees.slots;
      rests = v.agrees.rests;
      reads = omega (arith, v.agrees.reads);
      asks = λ _. refl;
      idle = λ e. ground (arith, v.agrees.idle);
    };
    served = λ e f. ground (arith, v.agrees.known, v.served e f);
    placed = v.placed;
  }

  -- A reader's guard drops, whether its answer came or not.
  pub reading-Inv :
      (m n : ℕ)
      → s.asking + s.answered ≡ m + n + 1
      → m ≤ s.asking
      → Inv (record s { gate = read_end s.gate; asking = m; answered = n })
  unfolding read_end
  reading-Inv m n h k = record {
    agrees = record {
      known = v.agrees.known;
      slots = v.agrees.slots;
      rests = v.agrees.rests;
      reads = omega (arith, v.agrees.reads);
      asks = λ e. omega (arith, v.agrees.asks e);
      idle = v.agrees.idle;
    };
    served = v.served;
    placed = v.placed;
  }

  pub resume-Inv :
      (is : List ℕ)
      → length s.granted ≡ length is + 1
      → Inv (record s { granted = is; holders = s.holders + 1 })
  resume-Inv is h = record {
    agrees = record {
      known = v.agrees.known;
      slots = omega (arith, v.agrees.slots);
      rests = v.agrees.rests;
      reads = v.agrees.reads;
      asks = v.agrees.asks;
      idle = λ e. absurd (omega (arith, v.agrees.idle e));
    };
    served = v.served;
    placed = v.placed;
  }

  pub ask-Inv : Then Inv (step_ask s (read_begin s.gate))
  unfolding step_ask read_begin
  ask-Inv = elim (Bool-cases (leb max_waiting (queued s.gate))) [
    | inl e ↦ rw (e, step_ask) v
    | inr e ↦
        rw (e, step_ask)
          (record {
            agrees = record {
              known = v.agrees.known;
              slots = v.agrees.slots;
              rests = v.agrees.rests;
              reads = omega (arith, v.agrees.reads);
              asks = λ f. cc;
              idle = v.agrees.idle;
            };
            served = v.served;
            placed = v.placed;
          })
  ]
