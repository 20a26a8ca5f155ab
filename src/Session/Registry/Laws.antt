-- ===== src/Session/Registry/Laws.antt =====
-- The registry's bounds, and which sockets a sign-out closes.
use shimpz_admin.Prelude.{
  ◌≤◌, ◌<◌, ◌≡◌, refl, ite, Bool, true, false, List, [], ◌∷◌, ◌++◌, Option, some, arith, Text,
  Text-discrete, length, length-append, keep, keep-append, length-keep-le, All, All-append,
  Bool-cases, Option-cases, leb, subst, ◌∙◌, sym, if_pos, if_neg, ◌≢◌, if◌then◌else◌, inl, inr,
}
use shimpz_admin.Prelude.Table.{lookup, insert, erase, lookup-insert, lookup-erase}
use shimpz_admin.Session.Registry.{
  Socket, Registry, sockets_of, add, put_back, is_other, remove, sockets, is_ended, end_sessions,
  max_sockets_per_session,
}

-- The sockets of an entry are one to eight, and of its session.
pub record IsHeld (entry : Text × List Socket) : Type 0 where
  pub some_held : 0 < length entry.1
  pub bounded : length entry.1 ≤ max_sockets_per_session
  pub own : All (λ s. s.session ≡ entry.0) entry.1

abbrev pub Inv : Registry → Type 0
Inv r = All IsHeld r

insert-Inv :
    (session : Text) (held : List Socket) (r : Registry)
    → IsHeld (session, held)
    → Inv r
    → Inv (insert Text-discrete session held r)
unfolding insert
insert-Inv session held [] h i = (h, tt)
insert-Inv session held ((key, kept) ∷ r) h i =
    elim (Text-discrete key session)
      as (λ d.
        Inv (ite d ((session, held) ∷ r) ((key, kept) ∷ insert Text-discrete session held r))) [
          | yes same ↦ (h, i.1)
          | no other ↦ (i.0, insert-Inv session held r h i.1)
        ]

erase-Inv : (session : Text) (r : Registry) → Inv r → Inv (erase Text-discrete session r)
unfolding erase
erase-Inv session [] i = tt
erase-Inv session ((key, kept) ∷ r) i =
    elim (Text-discrete key session)
      as (λ d.
        Inv (ite d (erase Text-discrete session r) ((key, kept) ∷ erase Text-discrete session r))) [
          | yes same ↦ erase-Inv session r i.1
          | no other ↦ (i.0, erase-Inv session r i.1)
        ]

lookup-IsHeld :
    (session : Text) (held : List Socket) (r : Registry)
    → Inv r
    → lookup Text-discrete session r ≡ some held
    → IsHeld (session, held)
unfolding lookup
lookup-IsHeld session held [] i h = absurd (ground (arith, h))
lookup-IsHeld session held ((key, kept) ∷ r) i h = elim (Text-discrete key session) [
  | yes same ↦ subst IsHeld (ground (arith, h, same)) i.0
  | no other ↦ lookup-IsHeld session held r i.1 (ground (arith, h, other))
]

keep-own :
    (session : Text) (p : Socket → Bool) (held : List Socket)
    → All (λ s. s.session ≡ session) held
    → All (λ s. s.session ≡ session) (keep p held)
keep-own session p [] h = tt
keep-own session p (s ∷ held) h =
    elim (p s)
      as (λ b. All (λ s. s.session ≡ session) (if b then s ∷ keep p held else keep p held)) [
        | true ↦ (h.0, keep-own session p held h.1)
        | false ↦ keep-own session p held h.1
      ]

held_by-own :
    (session : Text) (r : Registry) → Inv r → All (λ s. s.session ≡ session) (sockets_of session r)
held_by-own session r i = elim (Option-cases (lookup Text-discrete session r)) [
  | inl e ↦ rw e tt
  | inr (held, e) ↦ rw e (lookup-IsHeld session held r i e).own
]

add-Inv : (s : Socket) (r : Registry) → Inv r → Inv (add s r).0
unfolding add
add-Inv s r i = elim (Bool-cases (leb max_sockets_per_session (length (sockets_of s.session r)))) [
  | inl e ↦ rw e i
  | inr e ↦ rw e (
      insert-Inv s.session (sockets_of s.session r ++ s ∷ []) r
        (record {
          some_held = omega (arith, length-append (sockets_of s.session r) (s ∷ []));
          bounded = ground (arith, e, length-append (sockets_of s.session r) (s ∷ []));
          own =
              All-append _ (sockets_of s.session r) (s ∷ []) (held_by-own s.session r i) (refl, tt);
        })
        i)
]

put_back-Inv :
    (session : Text) (held : List Socket) (r : Registry)
    → Inv r
    → length held ≤ max_sockets_per_session
    → All (λ s. s.session ≡ session) held
    → Inv (put_back session held r)
put_back-Inv session [] r i b o = erase-Inv session r i
put_back-Inv session (s ∷ held) r i b o =
    insert-Inv session (s ∷ held) r (record { some_held = omega arith; bounded = b; own = o }) i

remove-Inv : (s : Socket) (r : Registry) → Inv r → Inv (remove s r)
unfolding remove
remove-Inv s r i = elim (Option-cases (lookup Text-discrete s.session r)) [
  | inl e ↦ rw e i
  | inr (held, e) ↦
      let h = lookup-IsHeld s.session held r i e in
      rw e (
        put_back-Inv s.session (keep (is_other s) held) r i
          (omega (arith, h.bounded, length-keep-le (is_other s) held))
          (keep-own s.session (is_other s) held h.own))
]

pub data Event : Type 0 where
  opens closes : Socket → Event

abbrev pub step : Event → Registry → Registry
step (opens s) r = (add s r).0
step (closes s) r = remove s r

abbrev pub run : List Event → Registry → Registry
run [] r = r
run (e ∷ events) r = run events (step e r)

step-Inv : (e : Event) (r : Registry) → Inv r → Inv (step e r)
step-Inv (opens s) r i = add-Inv s r i
step-Inv (closes s) r i = remove-Inv s r i

-- However sockets open and close, from an empty registry every session that has an entry holds one
-- to eight sockets, all of that session.
pub registry_run-Inv : (events : List Event) → Inv (run events [])
registry_run-Inv events = go events [] tt
  where
    go : (events : List Event) (r : Registry) → Inv r → Inv (run events r)
    go [] r i = i
    go (e ∷ events) r i = go events (step e r) (step-Inv e r i)

-- A socket is refused exactly when its session holds eight; otherwise it follows its session's
-- sockets, and the other sessions hold what they held.
pub add_lem :
    (s : Socket) (session : Text) (r : Registry)
    → ((add s r).1 ≡ leb (length (sockets_of s.session r)) 7)
      × (sockets_of session (add s r).0 ≡ (
          if (add s r).1
          then ite
              (Text-discrete s.session session)
              (sockets_of s.session r ++ s ∷ [])
              (sockets_of session r)
          else sockets_of session r))
unfolding add
add_lem s session r =
    ground
      (arith, lookup-insert Text-discrete session s.session (sockets_of s.session r ++ s ∷ []) r)

put_back_lem :
    (key session : Text) (held : List Socket) (r : Registry)
    → sockets_of session (put_back key held r)
      ≡ ite (Text-discrete key session) held (sockets_of session r)
put_back_lem key session [] r = ground (arith, lookup-erase Text-discrete session key r)
put_back_lem key session (s ∷ held) r =
    ground (arith, lookup-insert Text-discrete session key (s ∷ held) r)

remove_own :
    (s : Socket) (r : Registry)
    → sockets_of s.session (remove s r) ≡ keep (is_other s) (sockets_of s.session r)
unfolding remove
remove_own s r = elim (Option-cases (lookup Text-discrete s.session r)) [
  | inl e ↦ rw (e, e) refl
  | inr (held, e) ↦ rw e (
      put_back_lem s.session s.session (keep (is_other s) held) r
      ∙ if_pos (Text-discrete s.session s.session) refl _ _)
]

remove_elsewhere :
    (s : Socket) (session : Text) (r : Registry)
    → s.session ≢ session
    → sockets_of session (remove s r) ≡ sockets_of session r
unfolding remove
remove_elsewhere s session r n = elim (Option-cases (lookup Text-discrete s.session r)) [
  | inl e ↦ rw e refl
  | inr (held, e) ↦ rw e (
      put_back_lem s.session session (keep (is_other s) held) r
      ∙ if_neg (Text-discrete s.session session) n _ _)
]

-- A closed socket leaves its session, whose other sockets keep their order; the other sessions hold
-- what they held.
pub remove_lem :
    (s : Socket) (session : Text) (r : Registry)
    → sockets_of session (remove s r)
      ≡ ite
          (Text-discrete s.session session)
          (keep (is_other s) (sockets_of session r))
          (sockets_of session r)
remove_lem s session r = elim (Text-discrete s.session session) [
  | yes same ↦
      subst (λ x. sockets_of x (remove s r) ≡ keep (is_other s) (sockets_of x r)) same
        (remove_own s r)
      ∙ sym (if_pos (Text-discrete s.session session) same _ _)
  | no other ↦
      remove_elsewhere s session r other ∙ sym (if_neg (Text-discrete s.session session) other _ _)
]

keep_own :
    (ended : Option (List Text)) (session : Text) (held : List Socket)
    → All (λ s. s.session ≡ session) held
    → keep (λ s. is_ended ended s.session) held ≡ (if is_ended ended session then held else [])
keep_own ended session [] o = ground arith
keep_own ended session (s ∷ held) o = rw o.0 (ground (arith, keep_own ended session held o.1))

-- Of a registry whose entries hold their own sessions' sockets, a sign-out closes exactly the open
-- sockets of the ended sessions.
pub end_sessions-sockets :
    (ended : Option (List Text)) (r : Registry)
    → Inv r
    → end_sessions ended r ≡ keep (λ s. is_ended ended s.session) (sockets r)
unfolding end_sessions sockets
end_sessions-sockets ended [] i = refl
end_sessions-sockets ended ((session, held) ∷ r) i = ground (
  arith,
  end_sessions-sockets ended r i.1,
  keep-append (λ s. is_ended ended s.session) held (sockets r),
  keep_own ended session held i.0.own,
)
