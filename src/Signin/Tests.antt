-- ===== src/Signin/Tests.antt =====
-- Tickets and tracked sessions at work.
use shimpz_admin.Prelude.{
  ℕ, ◌≡◌, ◌<◌, ◌≤◌, ◌⊎◌, refl, [], ◌∷◌, none, some, arith, Text, codes, Text-discrete,
  Option-discrete, ℕ_discrete,
}
use shimpz_admin.Prelude.Int.{pos}
use shimpz_admin.Prelude.Table.{lookup, insert, erase, retain}
use shimpz_admin.Signin.Tickets.{
  operation, login, Binding, Tickets, Issue, Purpose-discrete, Binding-discrete, subject_admitted,
  issue, consume, revoke, empty,
}
use shimpz_admin.Signin.Tickets.Laws
use shimpz_admin.Signin.Tickets.Use.{Presented, consume_once, consume-issue}
use shimpz_admin.Signin.Sessions.{
  Sessions, new, idle_keys, erase_all, oldest, evict, register, current, idle_remaining_ms,
}
use shimpz_admin.Signin.Sessions.Laws as Tracked
use shimpz_admin.Signin.Sessions.Laws.{
  announces, register-Inv, register_keeps, register_tells, register_evicts_oldest,
}

-- All that the tests evaluate.
signin : Unit {0}
unfolding lookup insert erase retain subject_admitted issue consume revoke empty idle_keys erase_all
    oldest evict register current idle_remaining_ms new Text-discrete Option-discrete ℕ_discrete
    Purpose-discrete Binding-discrete
signin = tt

abbrev token : Text
token = codes "abcdefghijklmnopqrstuvwxyz-0123456789"

abbrev tab : Binding
tab = record { session = codes "s1"; socket = codes "w1" }

abbrev rotation : Issue
rotation = record {
  purpose = operation;
  origin = some (codes "http://localhost");
  generation = pos 3;
  subject = codes "rotate key";
  binding = some tab;
}

abbrev issued : Tickets
issued = (issue 1000 (token ∷ []) rotation empty).0

empty-Inv : Laws.Inv empty
unfolding signin
empty-Inv = record { distinct = tt; bounded = omega arith }

issued-Inv : Laws.Inv issued
issued-Inv = Laws.issue-Inv empty empty-Inv 1000 (token ∷ []) rotation

consume_once_example :
    (consume 1002 token operation
      (codes "rotate key")
      (some tab)
      (consume 1001 token login [] none issued).0).1
    ≡ none
consume_once_example =
    consume_once 1001 1002 token login operation [] (codes "rotate key") none (some tab) issued

consume-issue_example :
    Presented 1000 5000 rotation operation
      (codes "rotate key")
      (some tab)
      (consume 5000 token operation (codes "rotate key") (some tab) issued).1
unfolding signin
consume-issue_example =
    consume-issue 1000 5000 (token ∷ []) rotation empty token operation (codes "rotate key")
      (some tab) empty-Inv refl refl

-- Digests are not computed here: a token stands for its own digest.
abbrev same : Text → Text
same t = t

abbrev old : Text
old = codes "old"

abbrev idler : Text
idler = codes "idler"

abbrev fresh : Text
fresh = codes "fresh"

-- Room for two, one of which idles out before the registration below.
abbrev two : Sessions
two = record {
  idle = 100;
  capacity = 2;
  last_seen = (idler, (10, 1)) ∷ (old, (200, 2)) ∷ (codes "g", (210, 3)) ∷ [];
  order = 3;
}

abbrev pair : Sessions
pair = record two { last_seen = (old, (200, 2)) ∷ (codes "g", (210, 3)) ∷ [] }

pair-Inv : Tracked.Inv pair
unfolding signin
pair-Inv = record { distinct = (refl, (refl, tt)); positive = omega arith; bounded = omega arith }

register_evicts_oldest_example : (200 < 210) ⊎ (◌≡◌ {A = ℕ} 200 210 × (2 ≤ 3))
unfolding signin
register_evicts_oldest_example =
    register_evicts_oldest same 220 fresh pair pair-Inv old (200, 2) (λ e. cc) refl (codes "g")
      (210, 3) (λ e. cc) refl refl refl
