-- ===== src/Chat/Gate/Grant.antt =====
-- The queue of the gate: what `grant` and `tell` do to it.
use shimpz_admin.Prelude.{
  ℕ, ◌+◌, ◌≤◌, ◌≡◌, refl, ◌⊎◌, inl, false, List, [], ◌∷◌, ◌++◌, some, arith, length,
}
use shimpz_admin.Prelude.Int.{ℤ, pos, negsuc, pos_part}
use shimpz_admin.Chat.Gate.{Waiter, GateState, limit_or_zero, below, drain, tell_from, grant}

abbrev pub ids : List Waiter → List ℕ
ids [] = []
ids (w ∷ ws) = w.id ∷ ids ws

-- Each waiter knows its place, from the given index on.
abbrev pub IsPlaced : ℕ → List Waiter → Type 0
IsPlaced index [] = Unit {0}
IsPlaced index (w ∷ ws) = (w.place ≡ some (index + 1)) × IsPlaced (index + 1) ws

-- No waiter could start.
abbrev pub IsDrained : GateState → Type 0
IsDrained s = (s.waiting ≡ []) ⊎ (below s.running (limit_or_zero s.limit) ≡ false)

pub length-ids : (ws : List Waiter) → length (ids ws) ≡ length ws
length-ids [] = refl
length-ids (w ∷ ws) = omega (arith, length-ids ws)

drain-append :
    (l : ℤ) (n : ℕ) (ws : List Waiter) → ids (drain l n ws).0 ++ ids (drain l n ws).1 ≡ ids ws
unfolding drain
drain-append l n [] = refl
drain-append l n (w ∷ ws) = ground (arith, drain-append l (n + 1) ws)

drain_count : (l : ℤ) (n : ℕ) (ws : List Waiter) → (drain l n ws).2 ≡ n + length (drain l n ws).0
unfolding drain
drain_count l n [] = omega arith
drain_count l n (w ∷ ws) = ground (arith, drain_count l (n + 1) ws)

drain_full :
    (l : ℤ) (n : ℕ) (ws : List Waiter)
    → ((drain l n ws).1 ≡ []) ⊎ (below (drain l n ws).2 l ≡ false)
unfolding drain
drain_full l n [] = inl refl
drain_full l n (w ∷ ws) = ground (arith, drain_full l (n + 1) ws)

drain_bound :
    (l : ℤ) (n : ℕ) (ws : List Waiter) → ((drain l n ws).2 ≡ n) ⊎ ((drain l n ws).2 ≤ pos_part l)
unfolding drain
drain_bound l n [] = inl refl
drain_bound (negsuc l) n (w ∷ ws) = inl refl
drain_bound (pos l) n (w ∷ ws) = ground (arith, drain_bound (pos l) (n + 1) ws)

pub ids-tell : (i : ℕ) (ws : List Waiter) → ids (tell_from i ws).0 ≡ ids ws
unfolding tell_from
ids-tell i [] = refl
ids-tell i (w ∷ ws) = ground (arith, ids-tell (i + 1) ws)

pub tell-IsPlaced : (i : ℕ) (ws : List Waiter) → IsPlaced i (tell_from i ws).0
unfolding tell_from
tell-IsPlaced i [] = tt
tell-IsPlaced i (w ∷ ws) = ground (arith, tell-IsPlaced (i + 1) ws)

pub tell-nil : (i : ℕ) (ws : List Waiter) → ws ≡ [] → (tell_from i ws).0 ≡ []
unfolding tell_from
tell-nil i [] h = refl
tell-nil i (w ∷ ws) h = cc

module _ (s : GateState) where
  -- First in, first out: the granted waiters are the oldest ones, and the rest keep their order.
  pub grant-ids : ids (grant s).1 ++ ids (grant s).0.waiting ≡ ids s.waiting
  unfolding grant
  grant-ids = ground (
    arith,
    drain-append (limit_or_zero s.limit) s.running s.waiting,
    ids-tell 0 (drain (limit_or_zero s.limit) s.running s.waiting).1,
  )

  pub grant_count : (grant s).0.running ≡ s.running + length (grant s).1
  unfolding grant
  grant_count = ground (arith, drain_count (limit_or_zero s.limit) s.running s.waiting)

  pub grant-IsDrained : IsDrained (grant s).0
  unfolding grant
  grant-IsDrained = ground (
    arith,
    drain_full (limit_or_zero s.limit) s.running s.waiting,
    drain_count (limit_or_zero s.limit) s.running s.waiting,
    drain-append (limit_or_zero s.limit) s.running s.waiting,
    tell-nil 0 (drain (limit_or_zero s.limit) s.running s.waiting).1,
  )

  pub grant_bound :
      ((grant s).0.running ≡ s.running) ⊎ ((grant s).0.running ≤ pos_part (limit_or_zero s.limit))
  unfolding grant
  grant_bound = ground (arith, drain_bound (limit_or_zero s.limit) s.running s.waiting)

  pub grant-IsPlaced : IsPlaced 0 s.waiting → IsPlaced 0 (grant s).0.waiting
  unfolding grant
  grant-IsPlaced h =
      ground (arith, tell-IsPlaced 0 (drain (limit_or_zero s.limit) s.running s.waiting).1, h)

  pub grant_limit : (grant s).0.limit ≡ s.limit
  unfolding grant
  grant_limit = ground arith

  pub grant_resting : (grant s).0.resting ≡ s.resting
  unfolding grant
  grant_resting = ground arith

  pub grant_reading : (grant s).0.reading ≡ s.reading
  unfolding grant
  grant_reading = ground arith

  pub grant_limit_read : (grant s).0.limit_read ≡ s.limit_read
  unfolding grant
  grant_limit_read = ground arith

  pub grant_empty : s.waiting ≡ [] → (grant s).0.waiting ≡ []
  unfolding grant drain
  grant_empty h = ground arith

  pub grant_none : s.waiting ≡ [] → (grant s).1 ≡ []
  unfolding grant drain
  grant_none h = ground arith
