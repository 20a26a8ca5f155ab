-- ===== src/Session/Budget/Admitted.antt =====
-- What a budget lets through, in terms of what it let through before.
use shimpz_admin.Prelude.{
  ℕ, ◌+◌, ◌≤◌, ◌<◌, ◌≡◌, refl, ◌∙◌, ap, inl, inr, true, false, List, [], ◌∷◌, ◌++◌, some, arith,
  Text, Text-discrete, length, get_elem?, get_elem?-append, get_elem?-lt, ltb, Bool, if◌then◌else◌,
  if_pos, if_neg, dec_le, Bool-cases,
}
use shimpz_admin.Session.Budget.{Budget, fresh, window_ms, drop_old, admit}
use shimpz_admin.Session.Budget.Queue.{recent, length-drop_old, drop_old-recent}
use shimpz_admin.Session.Budget.Window.{
  Log, times, Audited, write, serve, IsOrdered, IsFaithful, last_time, audit, times-append,
  admit-recent, write-IsFaithful, fresh-IsFaithful, serve-IsFaithful, serve_limit, write_limit,
}

audit_limit : (limit : ℕ) (calls : Log) → (audit limit calls).budget.limit ≡ limit
unfolding fresh
audit_limit limit calls = serve_limit (record { budget = fresh limit; log = [] }) calls

-- After any requests at times that never go back, a budget lets a session's next request through
-- exactly when it let fewer than the limit through in the last minute.
pub admit-eq-recent :
    (limit now : ℕ) (calls : Log) (k : Text)
    → IsOrdered 0 calls
    → last_time 0 calls ≤ now
    → (admit now k (audit limit calls).budget).1
      ≡ ltb (length (recent now (times k (audit limit calls).log))) limit
admit-eq-recent limit now calls k o h =
    admit-recent (last_time 0 calls) now (audit limit calls) h
      (serve-IsFaithful 0 _ calls o (fresh-IsFaithful limit)) k
    ∙ ap (ltb (length (recent now (times k (audit limit calls).log)))) (audit_limit limit calls)

-- An event and the one `limit` places later are a minute apart.
abbrev IsSpaced : ℕ → List ℕ → Type 0
IsSpaced limit ts =
    (i x y : ℕ) → get_elem? ts i ≡ some x → get_elem? ts (i + limit) ≡ some y → x + window_ms ≤ y

append-IsSpaced :
    (limit now : ℕ) (ts : List ℕ)
    → length (drop_old now ts) < limit
    → IsSpaced limit ts
    → IsSpaced limit (ts ++ now ∷ [])
append-IsSpaced limit now ts few v i x y e f = elim (get_elem?-append ts now (i + limit) f) [
  | inl (at, last) ↦ elim (get_elem?-append ts now i e) [
    | inl (at', _) ↦ absurd (omega arith)
    | inr e' ↦ elim (dec_le (x + window_ms) y) [
      | yes p ↦ p
      | no q ↦ absurd (omega (arith, length-drop_old now x i ts e' (omega arith)))
    ]
  ]
  | inr f' ↦ elim (get_elem?-append ts now i e) [
    | inl (at', _) ↦ absurd (omega (arith, get_elem?-lt ts (i + limit) f'))
    | inr e' ↦ v i x y e' f'
  ]
]

write_log :
    (a : Audited) (now : ℕ) (j : Text) (p : Budget × Bool)
    → (write a now j p).log ≡ (if p.1 then a.log ++ (now, j) ∷ [] else a.log)
write_log a now j (b, true) = refl
write_log a now j (b, false) = refl

write-IsSpaced :
    (limit last now : ℕ) (a : Audited) (j k : Text)
    → a.budget.limit ≡ limit
    → last ≤ now
    → IsFaithful last a
    → IsSpaced limit (times k a.log)
    → IsSpaced limit (times k (write a now j (admit now j a.budget)).log)
write-IsSpaced limit last now a j k lim later v h = elim (Bool-cases (admit now j a.budget).1) [
  | inl let' ↦
      rw (write_log a now j (admit now j a.budget), let', times-append k j now a.log)
        (elim (Text-discrete j k) [
          | yes same ↦
              rw (if_pos _ same) (append-IsSpaced limit now (times k a.log) (few let' same) h)
          | no other ↦ rw (if_neg _ other) h
        ])
  | inr refused ↦ rw (write_log a now j (admit now j a.budget), refused) h
]
  where
    few : (admit now j a.budget).1 ≡ true → j ≡ k → length (drop_old now (times k a.log)) < limit
    few e same = ground (
      arith,
      admit-recent last now a later v j,
      drop_old-recent now 0 last (times k a.log) (v.in_order k),
    )

serve-IsSpaced :
    (limit last : ℕ) (a : Audited) (k : Text) (calls : Log)
    → a.budget.limit ≡ limit
    → IsOrdered last calls
    → IsFaithful last a
    → IsSpaced limit (times k a.log)
    → IsSpaced limit (times k (serve a calls).log)
unfolding serve
serve-IsSpaced limit last a k [] lim o v h = h
serve-IsSpaced limit last a k ((now, j) ∷ calls) lim o v h =
    serve-IsSpaced limit now _ k calls (write_limit now a j ∙ lim) o.1
      (write-IsFaithful last now a o.0 v j) (write-IsSpaced limit last now a j k lim o.0 v h)

-- However the requests come, at times that never go back, an event that a budget let through for a
-- session and the one `limit` places later are at least a minute apart: no minute holds more than
-- the limit.
pub audit_spaced :
    (limit : ℕ) (calls : Log) (k : Text) (i x y : ℕ)
    → IsOrdered 0 calls
    → get_elem? (times k (audit limit calls).log) i ≡ some x
    → get_elem? (times k (audit limit calls).log) (i + limit) ≡ some y
    → x + window_ms ≤ y
unfolding fresh
audit_spaced limit calls k i x y o =
    serve-IsSpaced limit 0 (record { budget = fresh limit; log = [] }) k calls refl o
      (fresh-IsFaithful limit) (λ i' x' y' e f. cc) i x y
