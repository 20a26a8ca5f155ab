-- ===== src/Chat/Run/Live.antt =====
-- The steps that a run shows to a page that attaches, and the pages that are told.
use shimpz_admin.Prelude.{
  ℕ, zero, suc, ◌+◌, ◌-◌, ◌≤◌, ◌≡◌, refl, sym, ap, subst, ◌∙◌, min, ite, Option, none, some, codes,
  Option-discrete, Text-discrete, Bool, true, false, ◌||◌, List, [], ◌∷◌, ◌++◌, append_assoc,
  append-nil, arith, length, keep, if◌then◌else◌, Bool-cases, inl, inr, length-append,
}
use shimpz_admin.Chat.Run.{live_steps, Json, RunState, fresh_state, drop, latest, recorded, publish}

module _ {V : Type 0} where
  length-drop : (n : ℕ) (xs : List V) → length (drop n xs) ≡ length xs - n
  length-drop n [] = omega arith
  length-drop zero (x ∷ xs) = omega arith
  length-drop (suc n) (x ∷ xs) = omega (arith, length-drop n xs)

  drop_zero : (xs : List V) → drop 0 xs ≡ xs
  drop_zero [] = refl
  drop_zero (x ∷ xs) = refl

  drop-append : (n : ℕ) (xs ys : List V) → n ≤ length xs → drop n (xs ++ ys) ≡ drop n xs ++ ys
  drop-append zero [] ys h = drop_zero ys
  drop-append (suc n) [] ys h = absurd (omega (arith, h))
  drop-append zero (x ∷ xs) ys h = refl
  drop-append (suc n) (x ∷ xs) ys h = drop-append n xs ys (omega (arith, h))

  drop-drop : (a b : ℕ) (xs : List V) → drop a (drop b xs) ≡ drop (b + a) xs
  drop-drop a b [] = refl
  drop-drop a zero (x ∷ xs) = let e : a ≡ 0 + a = omega arith in ap (λ n. drop n (x ∷ xs)) e
  drop-drop a (suc b) (x ∷ xs) =
      let e : suc (b + a) ≡ suc b + a = omega arith in
      drop-drop a b xs ∙ ap (λ n. drop n (x ∷ xs)) e

  -- The end of a list: its last elements, as many as it has up to a number.
  pub record IsEnd (n : ℕ) (xs ys : List V) : Type 0 where
    pub older : List V
    pub split : xs ≡ older ++ ys
    pub size : length ys ≡ min n (length xs)

  taken_off : (n : ℕ) (xs : List V) → (older : List V) × (xs ≡ older ++ drop n xs)
  taken_off n [] = ([], refl)
  taken_off zero (x ∷ xs) = ([], refl)
  taken_off (suc n) (x ∷ xs) = let (older, e) = taken_off n xs in (x ∷ older, ap (λ ys. x ∷ ys) e)

  latest-IsEnd : (xs : List V) → IsEnd 64 xs (latest xs)
  unfolding latest
  latest-IsEnd xs =
      let (older, e) = taken_off (length xs - live_steps) xs in
      record {
        older = older;
        split = e;
        size = omega (arith, length-drop (length xs - live_steps) xs);
      }

  -- Dropping what is too old early changes nothing later on.
  latest-append : (xs ys : List V) → latest (latest xs ++ ys) ≡ latest (xs ++ ys)
  unfolding latest
  latest-append xs ys =
      let k = length xs - live_steps in
      let e : drop k xs ++ ys ≡ drop k (xs ++ ys) = sym (drop-append k xs ys (omega arith)) in
      ap latest e
      ∙ drop-drop (length (drop k (xs ++ ys)) - live_steps) k (xs ++ ys)
      ∙ ap (λ n. drop n (xs ++ ys)) (omega (arith, length-drop k (xs ++ ys), length-append xs ys))

  module _ (json : Json V) where
    abbrev pub is_progress : V → Bool
    is_progress event =
        ite (Option-discrete Text-discrete (json.kind event) (some (codes "progress"))) true false

    abbrev is_one : Option V → Bool
    is_one none = false
    is_one (some value) = json.same value (json.int 1)

    abbrev is_first : V → Bool
    is_first event = is_one (json.seq event)

    abbrev any_first : List V → Bool
    any_first [] = false
    any_first (event ∷ events) = is_first event || any_first events

    -- The events from the last one that has sequence 1 on, and all of them if none has.
    abbrev pub since_first : List V → List V
    since_first [] = []
    since_first (event ∷ events) =
        let rest = since_first events in if any_first events then rest else event ∷ events

    abbrev pub publish_all : (ℕ → V → Bool) → List V → RunState V → RunState V
    publish_all takes [] s = s
    publish_all takes (event ∷ events) s = publish_all takes events (publish json takes event s).0

    -- The steps of a delivery that goes on from some steps.
    abbrev going_on : List V → List V → List V
    going_on live events = if any_first events then since_first events else live ++ events

    going_on-next :
        (live events : List V) (event : V)
        → going_on ((if is_first event then [] else live) ++ event ∷ []) events
          ≡ going_on live (event ∷ events)
    going_on-next live events event = elim (Bool-cases (any_first events)) [
      | inl e ↦ elim (Bool-cases (is_first event)) [
        | inl f ↦ rw (e, f) refl
        | inr f ↦ rw (e, f) refl
      ]
      | inr e ↦ elim (Bool-cases (is_first event)) [
        | inl f ↦ rw (e, f) refl
        | inr f ↦ rw (e, f) (append_assoc live (event ∷ []) events)
      ]
    ]

    none_first : (events : List V) → any_first events ≡ false → since_first events ≡ events
    none_first [] h = refl
    none_first (event ∷ events) h = elim (Bool-cases (any_first events)) [
      | inl e ↦ ground (arith, e, h)
      | inr e ↦ rw e refl
    ]

    -- A delivery that has no steps yet.
    begins : (events : List V) → going_on [] events ≡ since_first events
    begins events = elim (Bool-cases (any_first events)) [
      | inl e ↦ rw e refl
      | inr e ↦ rw e (sym (none_first events e))
    ]

    recorded-progress :
        (event : V) (live kept : List V)
        → is_progress event ≡ true
        → kept ≡ latest live
        → recorded json event kept ≡ latest ((if is_first event then [] else live) ++ event ∷ [])
    unfolding recorded
    recorded-progress event live kept h k = elim (Bool-cases (is_first event)) [
      | inl f ↦ rw (h, f) refl
      | inr f ↦ rw (h, f, k) (latest-append live (event ∷ []))
    ]

    recorded-other :
        (event : V) (kept : List V) → is_progress event ≡ false → recorded json event kept ≡ kept
    unfolding recorded
    recorded-other event kept h = rw h refl

    -- The steps that are kept are those of the last delivery, less what is too old.
    live-publish_all :
        (takes : ℕ → V → Bool) (events live : List V) (s : RunState V)
        → s.live ≡ latest live
        → (publish_all takes events s).live ≡ latest (going_on live (keep is_progress events))
    unfolding publish
    live-publish_all takes [] live s h = h ∙ ap latest (sym (append-nil live))
    live-publish_all takes (event ∷ events) live s h = elim (Bool-cases (is_progress event)) [
      | inl e ↦
          let next = (if is_first event then [] else live) ++ event ∷ [] in
          let k = recorded-progress event live s.live e h in
          live-publish_all takes events next (publish json takes event s).0 k
          ∙ ap latest (going_on-next live (keep is_progress events) event)
          ∙ rw e refl
      | inr e ↦
          let k = recorded-other event s.live e ∙ h in
          live-publish_all takes events live (publish json takes event s).0 k ∙ rw e refl
    ]

    -- Whatever events a new run publishes, and whoever takes them, the steps that it keeps for a page that
    -- attaches are the last 64, or all if they are fewer, of its latest delivery: of the progress events
    -- from the last one that has sequence 1 on.
    pub live-publish_all_fresh :
        (takes : ℕ → V → Bool) (events : List V)
        → IsEnd 64
            (since_first (keep is_progress events))
            (publish_all takes events fresh_state).live
    unfolding latest
    live-publish_all_fresh takes events =
        let e =
          live-publish_all takes events [] fresh_state refl
          ∙ ap latest (begins (keep is_progress events)) in
        subst (IsEnd 64 (since_first (keep is_progress events))) (sym e)
          (latest-IsEnd (since_first (keep is_progress events)))
