-- ===== src/Signin/Sessions/Activity.antt =====
-- How long a session stays current.
use shimpz_admin.Prelude.{
  ℕ, ◌-◌, ◌<◌, ◌≡◌, Bool, true, false, [], ◌∷◌, Option, none, some, arith, Text, Text-discrete, ltb,
  if◌then◌else◌,
}
use shimpz_admin.Prelude.Table.{lookup, lookup-insert, erase_self}
use shimpz_admin.Signin.Sessions.{Seen, Sessions, these, current, idle_remaining_ms}

abbrev is_positive : Option ℕ → Bool
is_positive none = false
is_positive (some ms) = ltb 0 ms

module _ (digest : Text → Text) (now : ℕ) (token : Text) (s : Sessions) where
  -- A session is current exactly while idle time remains to it.
  pub current-eq-remaining :
      (activity : Bool)
      → 0 < s.idle
      → (current digest now token activity s).2 ≡ is_positive (idle_remaining_ms digest now token s)
  unfolding current idle_remaining_ms
  current-eq-remaining activity pos = ground arith

  -- From a check that found the session current, its idle time runs from that check if it was the
  -- Supervisor's own activity, and otherwise from the last such activity: a later check finds it
  -- current exactly while that time is not over.
  pub current_later :
      (later : ℕ) (activity activity' : Bool) (seen order : ℕ)
      → lookup Text-discrete (digest token) s.last_seen ≡ some (seen, order)
      → (current digest now token activity s).2 ≡ true
      → (current digest later token activity' (current digest now token activity s).0).2
        ≡ ltb (later - (if activity then now else seen)) s.idle
  unfolding current
  current_later later activity activity' seen order e h =
      ground
        (arith, lookup-insert Text-discrete (digest token) (digest token) (now, order) s.last_seen)

  -- A session that a check finds not current is not tracked afterwards and stays so at every later
  -- check; if it was tracked, the listeners hear of it.
  pub current_ends :
      (later : ℕ) (activity activity' : Bool) (seen : Seen)
      → lookup Text-discrete (digest token) s.last_seen ≡ some seen
      → (current digest now token activity s).2 ≡ false
      → ((current digest now token activity s).1 ≡ these (digest token ∷ []))
        × ((current digest later token activity' (current digest now token activity s).0).2 ≡ false)
  unfolding current
  current_ends later activity activity' seen e h =
      ground (arith, erase_self Text-discrete (digest token) s.last_seen)
