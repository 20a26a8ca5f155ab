-- ===== src/Record/Resets/Once.antt =====
-- A host reset capability is consumed once while it is remembered.
use shimpz_admin.Prelude.{
  ◌≡◌, ◌⊎◌, refl, sym, subst, inl, inr, Bool, true, false, not, ◌&&◌, ◌||◌, List, [], ◌∷◌, ◌++◌,
  Option, none, some, Text, map, length, keep, leb, Bool-cases, arith,
}
use shimpz_admin.Prelude.Int.{ℤ, ltb_ℤ}
use shimpz_admin.Protocol.Origin.{same}
use shimpz_admin.Signin.Totp.{int, text}
use shimpz_admin.Record.{corrupt, Result, ok, err, ◌>>=◌, ok_or, held, HostReset, Data}
use shimpz_admin.Record.State.{
  max_consumed_host_resets, is_known, reset_of, reset_item, next_seen, resets_from,
  consumed_host_resets,
}
use shimpz_admin.Record.Resets.{is_active, stored, remembered, consumed_from, consume_reset}

-- A digest that is remembered up to a time.
abbrev Listed : Text → ℤ → List (Text × ℤ) → Type 0
Listed t at [] = ⊥
Listed t at ((k, a) ∷ seen) = ((k ≡ t) × (a ≡ at)) ⊎ Listed t at seen

append-Listed :
    (t : Text) (at : ℤ) (xs ys : List (Text × ℤ)) → Listed t at xs → Listed t at (xs ++ ys)
append-Listed t at [] ys h = absurd h
append-Listed t at ((k, a) ∷ xs) ys (inl e) = inl e
append-Listed t at ((k, a) ∷ xs) ys (inr h) = inr (append-Listed t at xs ys h)

last-Listed :
    (t k : Text) (at a : ℤ) (xs : List (Text × ℤ))
    → k ≡ t
    → a ≡ at
    → Listed t at (xs ++ (k, a) ∷ [])
last-Listed t k at a [] e h = inl (e, h)
last-Listed t k at a (x ∷ xs) e h = inr (last-Listed t k at a xs e h)

-- What the loop has seen stays.
abbrev Remembers : Text → ℤ → Option (List (Text × ℤ)) → Type 0
Remembers t at none = Unit
Remembers t at (some seen) = Listed t at seen

next-Remembers :
    (t : Text) (at : ℤ) (seen : List (Text × ℤ)) (o : Option (Text × ℤ))
    → Listed t at seen
    → Remembers t at (next_seen seen o)
next-Remembers t at seen none h = tt
next-Remembers t at seen (some (k, a)) h = elim (Bool-cases (is_known k seen)) [
  | inl e ↦ rw e tt
  | inr e ↦ rw e (append-Listed t at seen ((k, a) ∷ []) h)
]

from-Remembers :
    (t : Text) (at : ℤ) (rs : List (Option HostReset)) (o : Option (List (Text × ℤ)))
    → Remembers t at o
    → Remembers t at (resets_from rs o)
from-Remembers t at [] o h = h
from-Remembers t at (r ∷ rs) none h = tt
from-Remembers t at (r ∷ rs) (some seen) h =
    from-Remembers t at rs (next_seen seen (reset_item r))
      (next-Remembers t at seen (reset_item r) h)

reset_value :
    (t k : Text) (at a : ℤ) → reset_of (text t) (int at) ≡ some (k, a) → (k ≡ t) × (a ≡ at)
reset_value t k at a h = ground (arith, h)

added-Remembers :
    (t : Text) (at : ℤ) (seen : List (Text × ℤ)) (o : Option (Text × ℤ))
    → reset_of (text t) (int at) ≡ o
    → Remembers t at (next_seen seen o)
added-Remembers t at seen none e = tt
added-Remembers t at seen (some (k, a)) e =
    let (p, q) = reset_value t k at a e in
    elim (Bool-cases (is_known k seen)) [
      | inl b ↦ rw b tt
      | inr b ↦ rw b (last-Listed t k at a seen p q)
    ]

-- A capability among those of the file.
abbrev Stored : Text → ℤ → List (Option HostReset) → Type 0
Stored t at [] = ⊥
Stored t at (r ∷ rs) = (r ≡ stored (t, at)) ⊎ Stored t at rs

stored-Remembers :
    (t : Text) (at : ℤ) (rs : List (Option HostReset)) (o : Option (List (Text × ℤ)))
    → Stored t at rs
    → Remembers t at (resets_from rs o)
stored-Remembers t at [] o h = absurd h
stored-Remembers t at (r ∷ rs) none h = tt
stored-Remembers t at (r ∷ rs) (some seen) (inl e) =
    from-Remembers t at rs (next_seen seen (reset_item r)) (
      subst (λ r. Remembers t at (next_seen seen (reset_item r))) (sym e)
        (added-Remembers t at seen (reset_of (text t) (int at)) refl))
stored-Remembers t at (r ∷ rs) (some seen) (inr h) =
    stored-Remembers t at rs (next_seen seen (reset_item r)) h

sized-Remembers :
    (t : Text) (at : ℤ) (rs : List (Option HostReset))
    → Stored t at rs
    → Remembers t at (consumed_host_resets (held rs))
unfolding consumed_host_resets
sized-Remembers t at rs h = elim (Bool-cases (leb (length rs) max_consumed_host_resets)) [
  | inl b ↦ rw b (stored-Remembers t at rs (some []) h)
  | inr b ↦ rw b tt
]

-- What is remembered up to a time is active until then.
active-Listed :
    (t : Text) (at now : ℤ) (seen : List (Text × ℤ))
    → ltb_ℤ at now ≡ false
    → Listed t at seen
    → Listed t at (keep (is_active now) seen)
active-Listed t at now [] l h = absurd h
active-Listed t at now ((k, a) ∷ seen) l (inl (e, f)) =
    let g : is_active now (k, a) ≡ true = rw (f, l) refl in rw g (inl (e, f))
active-Listed t at now ((k, a) ∷ seen) l (inr h) = elim (Bool-cases (is_active now (k, a))) [
  | inl g ↦ rw g (inr (active-Listed t at now seen l h))
  | inr g ↦ rw g (active-Listed t at now seen l h)
]

same_self : (t : Text) → same t t ≡ true
same_self t = ground arith

known-Listed :
    (t : Text) (at : ℤ) (seen : List (Text × ℤ)) → Listed t at seen → is_known t seen ≡ true
known-Listed t at [] h = absurd h
known-Listed t at ((k, a) ∷ seen) (inl (e, f)) = rw (e, same_self t) refl
known-Listed t at ((k, a) ∷ seen) (inr h) = ground (arith, known-Listed t at seen h)

map-Stored :
    (t : Text) (at : ℤ) (seen : List (Text × ℤ)) (rs : List (Option HostReset))
    → Listed t at seen
    → Stored t at (map stored seen ++ rs)
map-Stored t at [] rs h = absurd h
map-Stored t at ((k, a) ∷ seen) rs (inl (e, f)) = inl (rw (e, f) refl)
map-Stored t at ((k, a) ∷ seen) rs (inr h) = inr (map-Stored t at seen rs h)

last-Stored :
    (t : Text) (at : ℤ) (rs : List (Option HostReset)) → Stored t at (rs ++ stored (t, at) ∷ [])
last-Stored t at [] = inl refl
last-Stored t at (r ∷ rs) = inr (last-Stored t at rs)

-- What a result says of the capability, and the record that it leaves.
abbrev pub consumes : Result (Data × Bool) → Bool
consumes (ok (d, r)) = r
consumes (err e) = false

abbrev pub left_by : Data → Result (Data × Bool) → Data
left_by d (ok (d', r)) = d'
left_by d (err e) = d

-- A record whose file has a capability.
Keeps : Text → ℤ → Data → Type 0
Keeps t at d = (rs : List (Option HostReset)) × (d.consumed_host_resets ≡ held rs) × Stored t at rs

-- The rest of `consume_reset`, once the capabilities are read.
abbrev decided : Text → ℤ → ℤ → Data → Option (List (Text × ℤ)) → Result (Data × Bool)
decided k expires now d o =
    ok_or corrupt o >>= λ rs. consumed_from k expires d (keep (is_active now) rs)

consumed-Keeps :
    (t k : Text) (at expires : ℤ) (d : Data) (active : List (Text × ℤ))
    → Listed t at active
    → Keeps t at d
    → Keeps t at (left_by d (consumed_from k expires d active))
unfolding Keeps
consumed-Keeps t k at expires d active h v =
    elim (Bool-cases (is_known k active || leb max_consumed_host_resets (length active))) [
      | inl b ↦ rw b v
      | inr b ↦ rw b (_, refl, map-Stored t at active (stored (k, expires) ∷ []) h)
    ]

decided-Keeps :
    (t k : Text) (at expires now : ℤ) (d : Data) (o : Option (List (Text × ℤ)))
    → ltb_ℤ at now ≡ false
    → Remembers t at o
    → Keeps t at d
    → Keeps t at (left_by d (decided k expires now d o))
decided-Keeps t k at expires now d none l h v = v
decided-Keeps t k at expires now d (some seen) l h v =
    consumed-Keeps t k at expires d (keep (is_active now) seen) (active-Listed t at now seen l h) v

decided-refused :
    (t : Text) (at expires now : ℤ) (d : Data) (o : Option (List (Text × ℤ)))
    → ltb_ℤ at now ≡ false
    → Remembers t at o
    → consumes (decided t expires now d o) ≡ false
decided-refused t at expires now d none l h = refl
decided-refused t at expires now d (some seen) l h =
    rw (known-Listed t at (keep (is_active now) seen) (active-Listed t at now seen l h)) refl

consume_reset-decided :
    (k : Text) (expires now : ℤ) (d : Data) (rs : List (Option HostReset))
    → d.consumed_host_resets ≡ held rs
    → consume_reset k expires now d ≡ decided k expires now d (consumed_host_resets (held rs))
unfolding consume_reset
consume_reset-decided k expires now d rs e = rw e refl

consume_reset-Keeps :
    (t k : Text) (at expires now : ℤ) (d : Data)
    → ltb_ℤ at now ≡ false
    → Keeps t at d
    → Keeps t at (left_by d (consume_reset k expires now d))
unfolding Keeps
consume_reset-Keeps t k at expires now d l (rs, e, h) =
    subst (λ x. Keeps t at (left_by d x)) (sym (consume_reset-decided k expires now d rs e))
      (decided-Keeps t k at expires now d _ l (sized-Remembers t at rs h) (rs, e, h))

consume_reset-refused :
    (t : Text) (at expires now : ℤ) (d : Data)
    → ltb_ℤ at now ≡ false
    → Keeps t at d
    → consumes (consume_reset t expires now d) ≡ false
unfolding Keeps
consume_reset-refused t at expires now d l (rs, e, h) =
    subst (λ x. consumes x ≡ false) (sym (consume_reset-decided t expires now d rs e))
      (decided-refused t at expires now d _ l (sized-Remembers t at rs h))

-- The record that a consumed capability leaves.
Leaves : Text → ℤ → Result (Data × Bool) → Type 0
Leaves t expires (ok (d, true)) = Keeps t expires d
Leaves t expires r = Unit

consumed-Leaves :
    (t : Text) (expires : ℤ) (d : Data) (active : List (Text × ℤ))
    → Leaves t expires (consumed_from t expires d active)
unfolding Leaves Keeps
consumed-Leaves t expires d active =
    elim (Bool-cases (is_known t active || leb max_consumed_host_resets (length active))) [
      | inl b ↦ rw b tt
      | inr b ↦ rw b (_, refl, last-Stored t expires (map stored active))
    ]

read-Leaves :
    (t : Text) (expires now : ℤ) (d : Data) (o : Result (List (Text × ℤ)))
    → Leaves t expires (o >>= λ rs. consumed_from t expires d (keep (is_active now) rs))
unfolding Leaves
read-Leaves t expires now d (err e) = tt
read-Leaves t expires now d (ok rs) = consumed-Leaves t expires d (keep (is_active now) rs)

consume_reset-Leaves :
    (t : Text) (expires now : ℤ) (d : Data) → Leaves t expires (consume_reset t expires now d)
unfolding consume_reset
consume_reset-Leaves t expires now d =
    read-Leaves t expires now d (remembered d.consumed_host_resets)

-- Capabilities that are presented one after another, each with its digest, its expiry and the time.
abbrev pub present_all : List (Text × ℤ × ℤ) → Data → Data
present_all [] d = d
present_all ((t, expires, now) ∷ ps) d = present_all ps (left_by d (consume_reset t expires now d))

abbrev pub all_by : ℤ → List (Text × ℤ × ℤ) → Bool
all_by at [] = true
all_by at ((t, expires, now) ∷ ps) = not (ltb_ℤ at now) && all_by at ps

present_all-Keeps :
    (t : Text) (at : ℤ) (ps : List (Text × ℤ × ℤ)) (d : Data)
    → all_by at ps ≡ true
    → Keeps t at d
    → Keeps t at (present_all ps d)
present_all-Keeps t at [] d h v = v
present_all-Keeps t at ((k, expires, now) ∷ ps) d h v =
    let l : ltb_ℤ at now ≡ false = ground (arith, h) in
    let rest : all_by at ps ≡ true = ground (arith, h) in
    present_all-Keeps t at ps (left_by d (consume_reset k expires now d)) rest
      (consume_reset-Keeps t k at expires now d l v)

-- A host reset capability that was consumed is not consumed again up to the time that it expires,
-- whatever capabilities are presented in between, up to that time, and whatever expiry it is presented
-- with then.
pub consume_reset_once :
    (digest : Text) (expires expires' now now' : ℤ) (ps : List (Text × ℤ × ℤ)) (d d' : Data)
    → consume_reset digest expires now d ≡ ok (d', true)
    → all_by expires ps ≡ true
    → ltb_ℤ expires now' ≡ false
    → consumes (consume_reset digest expires' now' (present_all ps d')) ≡ false
unfolding Leaves
consume_reset_once digest expires expires' now now' ps d d' h a l =
    let v : Leaves digest expires (ok (d', true)) =
      subst (Leaves digest expires) h (consume_reset-Leaves digest expires now d) in
    consume_reset-refused digest expires expires' now' (present_all ps d') l
      (present_all-Keeps digest expires ps d' a v)
