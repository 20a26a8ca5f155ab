-- ===== src/Signin/Sessions/Laws.antt =====
-- A registration tracks the new session within the capacity and ends as few others as it can.
use shimpz_admin.Prelude.{
  ℕ, ◌+◌, ◌≤◌, ◌<◌, ◌≡◌, ◌≢◌, ◌⊎◌, dec_lt, refl, sym, ◌∙◌, inl, inr, Bool, true, false, List, [],
  ◌∷◌, none, some, arith, Text, Text-discrete, length, if◌then◌else◌, Bool-cases,
}
use shimpz_admin.Prelude.Table.{
  Table, lookup, erase, IsDistinct, lookup-insert, lookup-erase, insert-IsDistinct,
  erase-IsDistinct, length-insert-le,
}
use shimpz_admin.Signin.Sessions.{
  Seen, Sessions, Ended, nothing, these, every, ended, idle_keys, erase_all, before, evict, is_idle,
  register,
}
use shimpz_admin.Signin.Sessions.Eviction.{has, Evicts, evict-Evicts, evict_enough}

pub record Inv (s : Sessions) : Type 0 where
  pub distinct : IsDistinct Text-discrete s.last_seen
  pub positive : 0 < s.capacity
  pub bounded : length s.last_seen ≤ s.capacity

lookup-erase_all :
    (j : Text) (ks : List Text) (m : Table Text Seen)
    → lookup Text-discrete j (erase_all ks m)
      ≡ (if has j ks then none else lookup Text-discrete j m)
unfolding erase_all
lookup-erase_all j [] m = refl
lookup-erase_all j (k ∷ ks) m =
    ground
      (arith, lookup-erase_all j ks (erase Text-discrete k m), lookup-erase Text-discrete j k m)

erase_all-IsDistinct :
    (ks : List Text) (m : Table Text Seen)
    → IsDistinct Text-discrete m
    → IsDistinct Text-discrete (erase_all ks m)
unfolding erase_all
erase_all-IsDistinct [] m d = d
erase_all-IsDistinct (k ∷ ks) m d =
    erase_all-IsDistinct ks (erase Text-discrete k m) (erase-IsDistinct Text-discrete k m d)

has-idle_absent :
    (idle now : ℕ) (j : Text) (m : Table Text Seen)
    → lookup Text-discrete j m ≡ none
    → has j (idle_keys idle now m) ≡ false
unfolding idle_keys lookup
has-idle_absent idle now j [] h = refl
has-idle_absent idle now j ((k, s) ∷ m) h = ground (arith, has-idle_absent idle now j m)

has-idle_keys :
    (idle now : ℕ) (j : Text) (r : Seen) (m : Table Text Seen)
    → IsDistinct Text-discrete m
    → lookup Text-discrete j m ≡ some r
    → has j (idle_keys idle now m) ≡ is_idle idle now r
unfolding idle_keys lookup
has-idle_keys idle now j r [] d h = cc
has-idle_keys idle now j r ((k, s) ∷ m) d h =
    ground (arith, has-idle_keys idle now j r m d.1, has-idle_absent idle now j m)

not_before : (r q : Seen) → before q r ≡ false → (r.0 < q.0) ⊎ ((r.0 ≡ q.0) × (r.1 ≤ q.1))
not_before (a, b) (c, d) h = elim (dec_lt a c) [ yes l ↦ inl l | no n ↦ inr (ground (arith, n, h)) ]

-- The sessions that are not idle.
abbrev pub active : ℕ → Sessions → Table Text Seen
active now s = erase_all (idle_keys s.idle now s.last_seen) s.last_seen

abbrev left : ℕ → Sessions → Table Text Seen × List Text
left now s =
    evict (length (active now s)) s.capacity (active now s) (idle_keys s.idle now s.last_seen)

abbrev pub announces : Text → Ended → Bool
announces j nothing = false
announces j (these ks) = has j ks
announces j every = true

announces-ended : (j : Text) (ks : List Text) → announces j (ended ks) ≡ has j ks
announces-ended j [] = refl
announces-ended j (k ∷ ks) = refl

module _ (now : ℕ) (s : Sessions) (v : Inv s) where
  active-IsDistinct : IsDistinct Text-discrete (active now s)
  active-IsDistinct = erase_all-IsDistinct _ s.last_seen v.distinct

  left-Evicts :
      Evicts (active now s) (idle_keys s.idle now s.last_seen) (left now s).0 (left now s).1
  left-Evicts = evict-Evicts (length (active now s)) s.capacity (active now s) _ active-IsDistinct

  left_room : length (left now s).0 < s.capacity
  left_room =
      evict_enough (length (active now s)) s.capacity (active now s) _ v.positive active-IsDistinct
        (omega arith)

module _ (digest : Text → Text) (now : ℕ) (token : Text) (s : Sessions) (v : Inv s) where
  -- A registration keeps the keys distinct and their number within the capacity, and tracks the new
  -- session as active now, last in the order.
  pub register-Inv :
      Inv (register digest now token s).0
      × (lookup Text-discrete (digest token) (register digest now token s).0.last_seen
          ≡ some (now, s.order + 1))
  unfolding register
  register-Inv = (
    record {
      distinct = insert-IsDistinct Text-discrete _ _ _ (left-Evicts now s v).distinct;
      positive = v.positive;
      bounded = omega (
        arith,
        left_room now s v,
        length-insert-le Text-discrete (digest token) (now, s.order + 1) (left now s).0,
      );
    },
    ground (
      arith,
      lookup-insert Text-discrete (digest token) (digest token) (now, s.order + 1) (left now s).0,
    ),
  )

  registered :
      (k : Text)
      → digest token ≢ k
      → lookup Text-discrete k (register digest now token s).0.last_seen
        ≡ lookup Text-discrete k (left now s).0
  unfolding register
  registered k other =
      ground (arith, lookup-insert Text-discrete k (digest token) (now, s.order + 1) (left now s).0)

  module _ (j : Text) (r : Seen) (other : digest token ≢ j)
      (tracked : lookup Text-discrete j s.last_seen ≡ some r) where
    lookup-active :
        lookup Text-discrete j (active now s) ≡ (if is_idle s.idle now r then none else some r)
    lookup-active = ground (
      arith,
      lookup-erase_all j (idle_keys s.idle now s.last_seen) s.last_seen,
      has-idle_keys s.idle now j r s.last_seen v.distinct tracked,
    )

    -- A session that stays is as it was, and was not idle.
    pub register_keeps :
        (q : Seen)
        → lookup Text-discrete j (register digest now token s).0.last_seen ≡ some q
        → (q ≡ r) × (is_idle s.idle now r ≡ false)
    register_keeps q h =
        ground (arith, lookup-active, (left-Evicts now s v).kept j q (sym (registered j other) ∙ h))

    -- The listeners hear of every other session that a registration ends.
    pub register_tells :
        lookup Text-discrete j (register digest now token s).0.last_seen ≡ none
        → announces j (register digest now token s).1 ≡ true
    unfolding register
    register_tells h = announces-ended j (left now s).1 ∙ elim (Bool-cases (is_idle s.idle now r)) [
      | inl idle ↦
          (left-Evicts now s v).grows j
            (has-idle_keys s.idle now j r s.last_seen v.distinct tracked ∙ idle)
      | inr awake ↦
          (left-Evicts now s v).announced j r (ground (arith, lookup-active))
            (sym (registered j other) ∙ h)
    ]

    -- An active session is ended only if every other session that stays was active later, or at the same
    -- time and registered no earlier.
    pub register_evicts_oldest :
        (k : Text) (q : Seen)
        → digest token ≢ k
        → is_idle s.idle now r ≡ false
        → lookup Text-discrete j (register digest now token s).0.last_seen ≡ none
        → lookup Text-discrete k (register digest now token s).0.last_seen ≡ some q
        → (r.0 < q.0) ⊎ ((r.0 ≡ q.0) × (r.1 ≤ q.1))
    register_evicts_oldest k q other' awake gone stays = not_before r q (
        (left-Evicts now s v).least j k r q (ground (arith, lookup-active))
          (sym (registered j other) ∙ gone) (sym (registered k other') ∙ stays))
