-- ===== src/Signin/Password/Limiter.antt =====
-- The login limiter at work: permits that are handed out and finished, at times that never go back.
use shimpz_admin.Prelude.{
  ℕ, zero, suc, ◌+◌, ◌-◌, ◌/◌, ◌≤◌, ◌<◌, ◌≡◌, refl, sym, subst, ◌⊎◌, inl, inr, max, Bool, true,
  false, List, [], ◌∷◌, Option, none, some, arith, ltb, Bool-cases, dec_lt, if◌then◌else◌, ◌==◌,
}
use shimpz_admin.Signin.Password.{login_lock_ms, LimiterState, fresh, begin, finish}

pub record System : Type 0 where
  pub state : LimiterState
  pub clock : ℕ
  pub permits : ℕ
  -- When passwords were rejected since the last accepted one, the latest first.
  pub rejected : List ℕ

pub data Event : Type 0 where
  asks : Event
  ends : Option Bool → Event

abbrev pub granted : ℕ → Option ℕ → ℕ
granted n none = suc n
granted n (some retry) = n

abbrev pub noted : ℕ → Option Bool → List ℕ → List ℕ
noted now none ts = ts
noted now (some false) ts = []
noted now (some true) ts = now ∷ ts

abbrev asked : System → LimiterState × Option ℕ → System
asked s (state, refusal) = record s { state = state; permits = granted s.permits refusal }

-- A permit is finished only by who has one.
abbrev ended : System → Option Bool → ℕ → System
ended s outcome zero = s
ended s outcome (suc n) = record s {
  state = (finish s.clock outcome s.state).0;
  permits = n;
  rejected = noted s.clock outcome s.rejected;
}

abbrev pub act : Event → System → System
act asks s = asked s (begin s.clock s.state)
act (ends outcome) s = ended s outcome s.permits

-- An event some time after the one before it.
unfoldable pub step : ℕ → Event → System → System
step dt e s = act e (record s { clock = s.clock + dt })

unfoldable pub run : List (ℕ × Event) → System → System
run [] s = s
run ((dt, e) ∷ es) s = run es (step dt e s)

unfoldable pub start : System
unfolding fresh
start = record { state = fresh; clock = 0; permits = 0; rejected = [] }

abbrev plus : ℕ → ℕ → ℕ
plus zero k = k
plus (suc j) k = suc (plus j k)

-- A list of times, the latest first.
abbrev pub Descends : ℕ → List ℕ → Type 0
Descends top [] = Unit
Descends top (t ∷ ts) = (t ≤ top) × Descends t ts

-- What follows the first `k` rejections is over for at least the time of a lock.
abbrev Gap : ℕ → ℕ → List ℕ → Type 0
Gap zero top [] = Unit
Gap zero top (t ∷ ts) = t + login_lock_ms ≤ top
Gap (suc k) top [] = Unit
Gap (suc k) top (t ∷ ts) = Gap k top ts

-- Every rejection is a lock's time after the fifth one before it.
abbrev pub Spaced : List ℕ → Type 0
Spaced [] = Unit
Spaced (t ∷ ts) = Gap 4 t ts × Spaced ts

abbrev PermitsFit : Bool → ℕ → Type 0
PermitsFit in_flight n = if in_flight then n ≡ 1 else n ≡ 0

abbrev Locked : ℕ → LimiterState → List ℕ → Type 0
Locked now s [] = (s.locked_until_ms ≡ 0) × (s.failures < 5)
Locked now s (t ∷ ts) =
    ((s.locked_until_ms ≡ 0) × (s.failures < 5))
    ⊎ ((s.locked_until_ms ≡ t + login_lock_ms) × (s.in_flight ≡ false))

pub record Inv (s : System) : Type 0 where
  pub single : PermitsFit s.state.in_flight s.permits
  pub descends : Descends s.clock s.rejected
  pub spaced : Spaced s.rejected
  pub locks : Locked s.clock s.state s.rejected
  pub gap : s.state.locked_until_ms ≡ 0 → Gap s.state.failures s.clock s.rejected

Gap-later : (k t u : ℕ) (ts : List ℕ) → t ≤ u → Gap k t ts → Gap k u ts
Gap-later zero t u [] h g = g
Gap-later zero t u (x ∷ ts) h g = omega (arith, h, g)
Gap-later (suc k) t u [] h g = g
Gap-later (suc k) t u (x ∷ ts) h g = Gap-later k t u ts h g

Descends-later : (t u : ℕ) (ts : List ℕ) → t ≤ u → Descends t ts → Descends u ts
Descends-later t u [] h d = tt
Descends-later t u (x ∷ ts) h d = (omega (arith, h, d.0), d.1)

-- Where the one at a place is over as long, so is the next one.
Gap-next : (k t : ℕ) (ts : List ℕ) → Descends t ts → Gap k t ts → Gap (suc k) t ts
Gap-next zero t [] d g = tt
Gap-next zero t (x ∷ []) d g = tt
Gap-next zero t (x ∷ y ∷ ts) d g = omega (arith, d, g)
Gap-next (suc k) t [] d g = tt
Gap-next (suc k) t (x ∷ ts) d g = Gap-next k t ts (Descends-later x t ts d.0 d.1) g

Gap-up : (j k t : ℕ) (ts : List ℕ) → Descends t ts → Gap k t ts → Gap (plus j k) t ts
Gap-up zero k t ts d g = g
Gap-up (suc j) k t ts d g = Gap-next (plus j k) t ts d (Gap-up j k t ts d g)

Gap-four : (k t : ℕ) (ts : List ℕ) → k < 5 → Descends t ts → Gap k t ts → Gap 4 t ts
Gap-four zero t ts l d g = Gap-up 4 0 t ts d g
Gap-four (suc zero) t ts l d g = Gap-up 3 1 t ts d g
Gap-four (suc (suc zero)) t ts l d g = Gap-up 2 2 t ts d g
Gap-four (suc (suc (suc zero))) t ts l d g = Gap-up 1 3 t ts d g
Gap-four (suc (suc (suc (suc zero)))) t ts l d g = g
Gap-four (suc (suc (suc (suc (suc k))))) t ts l d g = absurd (omega (arith, l))

Locked-later : (t u : ℕ) (s : LimiterState) (ts : List ℕ) → Locked t s ts → Locked u s ts
Locked-later t u s [] h = h
Locked-later t u s (x ∷ ts) h = h

later-Inv : (s : System) (dt : ℕ) → Inv s → Inv (record s { clock = s.clock + dt })
later-Inv s dt h =
    let up : s.clock ≤ s.clock + dt = omega arith in
    record {
      single = h.single;
      descends = Descends-later _ _ s.rejected up h.descends;
      spaced = h.spaced;
      locks = Locked-later s.clock (s.clock + dt) s.state s.rejected h.locks;
      gap = λ z. Gap-later s.state.failures _ _ s.rejected up (h.gap z);
    }

-- Where the lock, if there is one, is over, the latest rejection is a lock's time ago.
over-Gap :
    (now : ℕ) (s : LimiterState) (ts : List ℕ)
    → Locked now s ts
    → (s.locked_until_ms ≡ 0 → ⊥)
    → ltb now s.locked_until_ms ≡ false
    → Gap 0 now ts
over-Gap now s [] h n l = absurd (n h.0)
over-Gap now s (t ∷ ts) (inl h) n l = absurd (n h.0)
over-Gap now s (t ∷ ts) (inr h) n l = ground (arith, h, l)

reserved-Locked :
    (now : ℕ) (b : Bool) (k : ℕ) (ts : List ℕ)
    → k < 5
    → Locked now (record { in_flight = b; failures = k; locked_until_ms = 0 }) ts
reserved-Locked now b k [] h = (refl, h)
reserved-Locked now b k (t ∷ ts) h = inl (refl, h)

unlocked_few :
    (now : ℕ) (s : LimiterState) (ts : List ℕ)
    → Locked now s ts
    → s.locked_until_ms ≡ 0
    → s.failures < 5
unlocked_few now s [] h z = h.1
unlocked_few now s (t ∷ ts) (inl h) z = h.1
unlocked_few now s (t ∷ ts) (inr h) z = absurd (omega (arith, h.0, z))

begin_locked :
    (now : ℕ) (s : LimiterState)
    → ltb now s.locked_until_ms ≡ true
    → begin now s ≡ (s, some (max ((s.locked_until_ms - now + 999) / 1000) 1))
unfolding begin
begin_locked now s h = rw h refl

begin_busy :
    (now : ℕ) (s : LimiterState)
    → s.locked_until_ms ≡ 0
    → s.in_flight ≡ true
    → begin now s ≡ (s, some 1)
unfolding begin
begin_busy now s z b = ground (arith, z, b)

begin_free :
    (now : ℕ) (s : LimiterState)
    → s.locked_until_ms ≡ 0
    → s.in_flight ≡ false
    → begin now s ≡ (record { in_flight = true; failures = s.failures; locked_until_ms = 0 }, none)
unfolding begin
begin_free now s z b = ground (arith, z, b)

begin_over :
    (now : ℕ) (s : LimiterState)
    → ltb now s.locked_until_ms ≡ false
    → (s.locked_until_ms == 0) ≡ false
    → s.in_flight ≡ false
    → begin now s ≡ (record { in_flight = true; failures = 0; locked_until_ms = 0 }, none)
unfolding begin
begin_over now s l z b = ground (arith, l, z, b)

Locked-idle :
    (now : ℕ) (s : LimiterState) (ts : List ℕ)
    → Locked now s ts
    → (s.locked_until_ms == 0) ≡ false
    → s.in_flight ≡ false
Locked-idle now s [] h z = ground (arith, h, z)
Locked-idle now s (t ∷ ts) h z = ground (arith, h, z)

single_free : (b : Bool) (n : ℕ) → PermitsFit b n → b ≡ false → suc n ≡ 1
single_free true n h e = cc
single_free false n h e = omega (arith, h)

asked-Inv :
    (s : System) (k : ℕ)
    → Inv s
    → s.state.in_flight ≡ false
    → k < 5
    → Gap k s.clock s.rejected
    → Inv (asked s (record { in_flight = true; failures = k; locked_until_ms = 0 }, none))
asked-Inv s k h b l g = record {
  single = single_free s.state.in_flight s.permits h.single b;
  descends = h.descends;
  spaced = h.spaced;
  locks = reserved-Locked s.clock true k s.rejected l;
  gap = λ _. g;
}

asks-Inv : (s : System) → Inv s → Inv (act asks s)
asks-Inv s h = elim (Bool-cases (ltb s.clock s.state.locked_until_ms)) [
  | inl e ↦ subst (λ p. Inv (asked s p)) (sym (begin_locked s.clock s.state e)) h
  | inr e ↦ elim (Bool-cases (s.state.locked_until_ms == 0)) [
    | inl z ↦
        let z' : s.state.locked_until_ms ≡ 0 = ground (arith, z) in
        elim (Bool-cases s.state.in_flight) [
          | inl b ↦ subst (λ p. Inv (asked s p)) (sym (begin_busy s.clock s.state z' b)) h
          | inr b ↦
              subst (λ p. Inv (asked s p)) (sym (begin_free s.clock s.state z' b))
                (asked-Inv s s.state.failures h b
                  (unlocked_few s.clock s.state s.rejected h.locks z') (h.gap z'))
        ]
    | inr z ↦
        let b = Locked-idle s.clock s.state s.rejected h.locks z in
        let g = over-Gap s.clock s.state s.rejected h.locks (λ q. ground (arith, z, q)) e in
        subst (λ p. Inv (asked s p)) (sym (begin_over s.clock s.state e z b))
          (asked-Inv s 0 h b (omega arith) g)
  ]
]

finish_few :
    (now : ℕ) (s : LimiterState)
    → s.failures < 4
    → finish now (some true) s ≡ (record s { in_flight = false; failures = suc s.failures }, 0)
unfolding finish
finish_few now s l = ground (arith, l)

finish_fifth :
    (now : ℕ) (s : LimiterState)
    → s.failures ≡ 4
    → finish now (some true) s
      ≡ (record { in_flight = false; failures = 5; locked_until_ms = now + login_lock_ms }, 60)
unfolding finish
finish_fifth now s l = ground (arith, l)

finish_clear :
    (now : ℕ) (s : LimiterState)
    → finish now (some false) s
      ≡ (record { in_flight = false; failures = 0; locked_until_ms = 0 }, 0)
unfolding finish
finish_clear now s = refl

finish_drop : (now : ℕ) (s : LimiterState) → finish now none s ≡ (record s { in_flight = false }, 0)
unfolding finish
finish_drop now s = refl

open_lock :
    (now : ℕ) (s : LimiterState) (ts : List ℕ)
    → Locked now s ts
    → s.in_flight ≡ true
    → s.locked_until_ms ≡ 0
open_lock now s [] h b = h.0
open_lock now s (t ∷ ts) (inl h) b = h.0
open_lock now s (t ∷ ts) (inr h) b = absurd (ground (arith, h, b))

busy_open :
    (s : System) (n : ℕ)
    → Inv s
    → s.permits ≡ suc n
    → (n ≡ 0) × (s.state.locked_until_ms ≡ 0) × (s.state.failures < 5)
busy_open s n h e = elim (Bool-cases s.state.in_flight) [
  | inr b ↦ absurd (ground (arith, h.single, b, e))
  | inl b ↦
      let z = open_lock s.clock s.state s.rejected h.locks b in
      (ground (arith, h.single, b, e), z, unlocked_few s.clock s.state s.rejected h.locks z)
]

Locked-open :
    (now k : ℕ) (s : LimiterState) (ts : List ℕ)
    → s.locked_until_ms ≡ 0
    → k < 5
    → Locked now (record s { in_flight = false; failures = k }) ts
Locked-open now k s [] z l = (z, l)
Locked-open now k s (t ∷ ts) z l = inl (z, l)

abbrev finished : System → Option Bool → LimiterState → System
finished s outcome state = record s {
  state = state;
  permits = 0;
  rejected = noted s.clock outcome s.rejected;
}

ends-Inv :
    (s : System) (o : Option Bool)
    → Inv s
    → s.state.locked_until_ms ≡ 0
    → s.state.failures < 5
    → Inv (finished s o (finish s.clock o s.state).0)
ends-Inv s none h z l =
    subst (λ p. Inv (finished s none p.0)) (sym (finish_drop s.clock s.state))
      (record {
        single = refl;
        descends = h.descends;
        spaced = h.spaced;
        locks = Locked-open s.clock s.state.failures s.state s.rejected z l;
        gap = h.gap;
      })
ends-Inv s (some false) h z l =
    subst (λ p. Inv (finished s (some false) p.0)) (sym (finish_clear s.clock s.state))
      (record {
        single = refl;
        descends = tt;
        spaced = tt;
        locks = (refl, omega arith);
        gap = λ _. tt;
      })
ends-Inv s (some true) h z l =
    let k = s.state.failures in
    let spaced : Spaced (s.clock ∷ s.rejected) =
      (Gap-four k s.clock s.rejected l h.descends (h.gap z), h.spaced) in
    elim (dec_lt k 4) [
      | yes m ↦
          subst (λ p. Inv (finished s (some true) p.0)) (sym (finish_few s.clock s.state m))
            (record {
              single = refl;
              descends = (omega arith, h.descends);
              spaced = spaced;
              locks = inl (z, omega (arith, m));
              gap = λ _. h.gap z;
            })
      | no m ↦
          subst (λ p. Inv (finished s (some true) p.0))
            (sym (finish_fifth s.clock s.state (omega (arith, l, m))))
            (record {
              single = refl;
              descends = (omega arith, h.descends);
              spaced = spaced;
              locks = inr (refl, refl);
              gap = λ q. absurd (omega (arith, q));
            })
    ]

ended-Inv : (s : System) (o : Option Bool) (n : ℕ) → Inv s → s.permits ≡ n → Inv (ended s o n)
ended-Inv s o zero h e = h
ended-Inv s o (suc n) h e =
    let (last, z, l) = busy_open s n h e in
    subst (λ m. Inv (ended s o (suc m))) (sym last) (ends-Inv s o h z l)

act-Inv : (e : Event) (s : System) → Inv s → Inv (act e s)
act-Inv asks s h = asks-Inv s h
act-Inv (ends o) s h = ended-Inv s o s.permits h refl

pub run-Inv : (es : List (ℕ × Event)) (s : System) → Inv s → Inv (run es s)
unfolding run step
run-Inv [] s h = h
run-Inv ((dt, e) ∷ es) s h =
    run-Inv es (step dt e s) (act-Inv e (record s { clock = s.clock + dt }) (later-Inv s dt h))

start-Inv : Inv start
unfolding start fresh
start-Inv = record {
  single = refl;
  descends = tt;
  spaced = tt;
  locks = (refl, omega arith);
  gap = λ _. tt;
}

-- However logins ask for the password derivation and end it, at times that never go back, no two of
-- them have it at once; and of the passwords rejected in a row, each one was rejected at least a
-- minute after the fifth one before it.
pub run-Spaced :
    (es : List (ℕ × Event)) → ((run es start).permits ≤ 1) × Spaced (run es start).rejected
run-Spaced es = let h = run-Inv es start start-Inv in (ground (arith, h.single), h.spaced)
