-- ===== src/Session/Budget/Renewal.antt =====
-- A session's idle time restarts once in half a minute.
use shimpz_admin.Prelude.{
  ℕ, ◌+◌, ◌-◌, ◌<◌, ◌≡◌, true, false, List, [], ◌∷◌, some, arith, Text, Text-discrete, All, ltb,
}
use shimpz_admin.Prelude.Table.{
  Table, lookup, retain, IsDistinct, lookup-insert, lookup-retain, insert-IsDistinct,
  retain-IsDistinct,
}
use shimpz_admin.Session.Budget.{Renewals, renewal_ms, due}

-- The requests of any sessions, one after the other.
abbrev pub ask_all : List (ℕ × Text) → Renewals → Renewals
ask_all [] r = r
ask_all ((now, session) ∷ later) r = ask_all later (due now session r).0

abbrev pub Before : ℕ → List (ℕ × Text) → Type 0
Before end asks = All (λ ask. ask.0 < end) asks

abbrev recent : ℕ → Table Text ℕ → Table Text ℕ
recent now = retain Text-discrete (λ _ at. ltb (now - at) renewal_ms)

due-IsDistinct :
    (now : ℕ) (session : Text) (r : Renewals)
    → IsDistinct Text-discrete r.renewed
    → IsDistinct Text-discrete (due now session r).0.renewed
unfolding due
due-IsDistinct now session r d =
    let e = retain-IsDistinct Text-discrete (λ _ at. ltb (now - at) renewal_ms) r.renewed d in
    ground (
      arith,
      e,
      insert-IsDistinct Text-discrete session now
          (retain Text-discrete (λ _ at. ltb (now - at) renewal_ms) r.renewed) e,
    )

-- A restart is still known while its half minute lasts.
due-known :
    (now at : ℕ) (session asked : Text) (r : Renewals)
    → IsDistinct Text-discrete r.renewed
    → lookup Text-discrete session r.renewed ≡ some at
    → now < at + renewal_ms
    → lookup Text-discrete session (due now asked r).0.renewed ≡ some at
unfolding due
due-known now at session asked r d h l =
    let m = recent now r.renewed in
    let e : lookup Text-discrete session m ≡ some at = ground (
      arith,
      h,
      l,
      lookup-retain Text-discrete (λ _ at. ltb (now - at) renewal_ms) session r.renewed d,
    ) in
    elim (Text-discrete asked session) [
      | yes same ↦ rw (same, e) e
      | no other ↦ ground (arith, e, other, lookup-insert Text-discrete session asked now m)
    ]

ask_all-known :
    (at : ℕ) (session : Text) (asks : List (ℕ × Text)) (r : Renewals)
    → IsDistinct Text-discrete r.renewed
    → lookup Text-discrete session r.renewed ≡ some at
    → Before (at + renewal_ms) asks
    → (IsDistinct Text-discrete (ask_all asks r).renewed)
      × (lookup Text-discrete session (ask_all asks r).renewed ≡ some at)
ask_all-known at session [] r d h b = (d, h)
ask_all-known at session ((now, asked) ∷ asks) r d h b =
    ask_all-known at session asks (due now asked r).0 (due-IsDistinct now asked r d)
      (due-known now at session asked r d h b.0) b.1

known-due :
    (now at : ℕ) (session : Text) (r : Renewals)
    → IsDistinct Text-discrete r.renewed
    → lookup Text-discrete session r.renewed ≡ some at
    → now < at + renewal_ms
    → (due now session r).1 ≡ false
unfolding due
known-due now at session r d h l =
    ground
      (arith, lookup-retain Text-discrete (λ _ at. ltb (now - at) renewal_ms) session r.renewed d)

due-records :
    (now : ℕ) (session : Text) (r : Renewals)
    → (due now session r).1 ≡ true
    → lookup Text-discrete session (due now session r).0.renewed ≡ some now
unfolding due
due-records now session r h =
    ground (arith, h, lookup-insert Text-discrete session session now (recent now r.renewed))

-- After the idle time of a session restarted, whatever any sessions ask in between, it does not
-- restart again before half a minute is over.
pub due_spaced :
    (now now' : ℕ) (session : Text) (asks : List (ℕ × Text)) (r : Renewals)
    → IsDistinct Text-discrete r.renewed
    → (due now session r).1 ≡ true
    → Before (now + renewal_ms) asks
    → now' < now + renewal_ms
    → (due now' session (ask_all asks (due now session r).0)).1 ≡ false
due_spaced now now' session asks r d h b l =
    let (d', k) =
      ask_all-known now session asks (due now session r).0 (due-IsDistinct now session r d)
        (due-records now session r h) b in
    known-due now' now session (ask_all asks (due now session r).0) d' k l
