-- ===== src/Session/Budget/Queue.antt =====
-- The queue of one session's events: cutting it to the window.
use shimpz_admin.Prelude.{
  ℕ, zero, suc, get_elem?, ◌+◌, ◌-◌, ◌≤◌, ◌<◌, ◌≡◌, refl, false, List, [], ◌∷◌, ◌++◌, some, arith,
  length, keep, ltb,
}
use shimpz_admin.Session.Budget.{window_ms, back, is_recent, drop_old}

-- Times in order, none before the first bound or after the second.
abbrev pub IsBetween : ℕ → ℕ → List ℕ → Type 0
IsBetween lo hi [] = lo ≤ hi
IsBetween lo hi (t ∷ ts) = (lo ≤ t) × IsBetween t hi ts

-- The events of the last minute.
abbrev pub recent : ℕ → List ℕ → List ℕ
recent now = keep (λ t. ltb (now - t) window_ms)

pub IsBetween-le : (lo hi : ℕ) (ts : List ℕ) → IsBetween lo hi ts → lo ≤ hi
IsBetween-le lo hi [] h = h
IsBetween-le lo hi (t ∷ ts) h = omega (arith, IsBetween-le t hi ts h.1)

pub IsBetween-later :
    (lo hi hi' : ℕ) (ts : List ℕ) → hi ≤ hi' → IsBetween lo hi ts → IsBetween lo hi' ts
IsBetween-later lo hi hi' [] k h = omega arith
IsBetween-later lo hi hi' (t ∷ ts) k h = (h.0, IsBetween-later t hi hi' ts k h.1)

pub IsBetween-earlier :
    (lo lo' hi : ℕ) (ts : List ℕ) → lo' ≤ lo → IsBetween lo hi ts → IsBetween lo' hi ts
IsBetween-earlier lo lo' hi [] k h = omega arith
IsBetween-earlier lo lo' hi (t ∷ ts) k h = (omega arith, h.1)

pub IsBetween-append :
    (lo hi : ℕ) (ts : List ℕ) → IsBetween lo hi ts → IsBetween lo hi (ts ++ hi ∷ [])
IsBetween-append lo hi [] h = (h, omega arith)
IsBetween-append lo hi (t ∷ ts) h = (h.0, IsBetween-append t hi ts h.1)

pub drop_old-IsBetween :
    (now lo hi : ℕ) (ts : List ℕ) → IsBetween lo hi ts → IsBetween lo hi (drop_old now ts)
unfolding drop_old
drop_old-IsBetween now lo hi [] h = h
drop_old-IsBetween now lo hi (t ∷ ts) h =
    ground
      (arith, drop_old-IsBetween now t hi ts h.1, IsBetween-earlier t lo hi (drop_old now ts) h.0)

pub drop_old-drop_old :
    (now now' : ℕ) (ts : List ℕ) → now ≤ now' → drop_old now' (drop_old now ts) ≡ drop_old now' ts
unfolding drop_old
drop_old-drop_old now now' [] h = refl
drop_old-drop_old now now' (t ∷ ts) h = ground (arith, drop_old-drop_old now now' ts h)

-- What an append adds to a queue that was cut.
abbrev after : List ℕ → List ℕ → List ℕ → List ℕ
after [] whole cut = cut
after (t ∷ ts) whole cut = (t ∷ ts) ++ whole

drop_old-append :
    (now : ℕ) (ts us : List ℕ)
    → drop_old now (ts ++ us) ≡ after (drop_old now ts) us (drop_old now us)
unfolding drop_old
drop_old-append now [] us = refl
drop_old-append now (t ∷ ts) us = ground (arith, drop_old-append now ts us)

-- Two queues that agree once cut agree after the same append.
pub drop_old-append_eq :
    (now : ℕ) (ts us vs : List ℕ)
    → drop_old now ts ≡ drop_old now us
    → drop_old now (ts ++ vs) ≡ drop_old now (us ++ vs)
drop_old-append_eq now ts us vs h = cc (drop_old-append now ts vs, drop_old-append now us vs)

-- A queue whose last event is old is cut to nothing.
pub drop_old-not-recent :
    (now now' lo hi : ℕ) (ts : List ℕ)
    → now ≤ now'
    → IsBetween lo hi ts
    → is_recent now (back ts) ≡ false
    → drop_old now' ts ≡ []
unfolding drop_old
drop_old-not-recent now now' lo hi [] k h r = refl
drop_old-not-recent now now' lo hi (t ∷ []) k h r = ground arith
drop_old-not-recent now now' lo hi (t ∷ u ∷ ts) k h r =
    ground (arith, drop_old-not-recent now now' t hi (u ∷ ts) k h.1 r)

recent-all :
    (now lo hi : ℕ) (ts : List ℕ) → IsBetween lo hi ts → now < lo + window_ms → recent now ts ≡ ts
recent-all now lo hi [] h k = refl
recent-all now lo hi (t ∷ ts) h k = ground (arith, recent-all now t hi ts h.1)

-- In a queue in order, the cut leaves the events of the last minute.
pub drop_old-recent :
    (now lo hi : ℕ) (ts : List ℕ) → IsBetween lo hi ts → drop_old now ts ≡ recent now ts
unfolding drop_old
drop_old-recent now lo hi [] h = refl
drop_old-recent now lo hi (t ∷ ts) h =
    ground (arith, drop_old-recent now t hi ts h.1, recent-all now t hi ts h.1)

-- The cut stops at or before an event within the window.
pub length-drop_old :
    (now x i : ℕ) (ts : List ℕ)
    → get_elem? ts i ≡ some x
    → now < x + window_ms
    → length ts ≤ length (drop_old now ts) + i
unfolding drop_old
length-drop_old now x i [] e h = cc
length-drop_old now x zero (t ∷ ts) e h = ground arith
length-drop_old now x (suc i) (t ∷ ts) e h = ground (arith, length-drop_old now x i ts e h)
