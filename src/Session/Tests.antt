-- ===== src/Session/Tests.antt =====
-- The budgets and the outbound queue at work.
use shimpz_admin.Prelude.{
  ◌+◌, ◌≤◌, ◌≡◌, refl, List, [], ◌∷◌, ◌++◌, none, some, arith, true, Text, codes, Text-discrete,
  Option-discrete, ℕ_discrete, length, ltb,
}
use shimpz_admin.Prelude.Table.{lookup, insert, retain}
use shimpz_admin.Session.Budget.{window_ms, drop_old, admit, fresh, Renewals, due}
use shimpz_admin.Session.Budget.Queue.{recent}
use shimpz_admin.Session.Budget.Window.{Log, times, audit, serve}
use shimpz_admin.Session.Budget.Admitted.{admit-eq-recent, audit_spaced}
use shimpz_admin.Session.Outbound.{Outbound, err, overflow, put, close, take_next, empty}
use shimpz_admin.Session.Outbound.Laws.{Inv}
use shimpz_admin.Session.Outbound.Delivery.{
  Event, puts, takes, step, run, fresh as fresh_trace, plain, run_keeps,
}

-- All that the tests evaluate.
session : Unit {0}
unfolding lookup insert retain drop_old admit fresh due serve put close take_next empty step run
    Text-discrete Option-discrete ℕ_discrete
session = tt

abbrev ann : Text
ann = codes "ann"

abbrev bob : Text
bob = codes "bob"

-- With a limit of two, the third request of `ann` within the minute is refused.
abbrev requests : Log
requests = (10, ann) ∷ (20, ann) ∷ (30, bob) ∷ (40, ann) ∷ (60010, ann) ∷ []

spaced_log : times ann (audit 2 requests).log ≡ 10 ∷ 20 ∷ 60010 ∷ []
unfolding session
spaced_log = refl

admit-eq-recent_example :
    (admit 60015 ann (audit 2 requests).budget).1
    ≡ ltb (length (recent 60015 (times ann (audit 2 requests).log))) 2
admit-eq-recent_example = admit-eq-recent 2 60015 requests ann (omega arith) (omega arith)

audit_spaced_example : 10 + window_ms ≤ 60010
unfolding session
audit_spaced_example = audit_spaced 2 requests ann 0 10 60010 (omega arith) refl refl

-- A chat frame, a notice, a newer notice of its topic, and another frame.
abbrev frames : List Event
frames =
    puts (codes "a") none
    ∷ puts (codes "old") (some (codes "teams"))
    ∷ puts (codes "newer") (some (codes "teams"))
    ∷ takes
    ∷ puts (codes "b") none
    ∷ []

run_keeps_example :
    plain (run frames (fresh_trace 6)).taken ++ plain (run frames (fresh_trace 6)).queue.items
    ≡ codes "a" ∷ codes "b" ∷ []
unfolding session
run_keeps_example = run_keeps 6 frames

abbrev waiting : Outbound
waiting = (run frames (fresh_trace 6)).queue

waiting-Inv : Inv waiting
unfolding session
waiting-Inv = record { counted = refl; unique = (λ t e. refl, (λ t e. cc, tt)) }

put_overflows : (put (codes "cd") none waiting).1 ≡ err overflow
unfolding session
put_overflows = refl

abbrev idle : Renewals
idle = record { renewed = [] }

restarts : (due 5 ann idle).1 ≡ true
unfolding session
restarts = refl
