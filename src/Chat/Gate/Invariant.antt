-- ===== src/Chat/Gate/Invariant.antt =====
-- What holds of the gate between any two critical sections.
use shimpz_admin.Prelude.{ℕ, ◌+◌, ◌≡◌, false, [], none, length}
use shimpz_admin.Chat.Gate.{GateState}
use shimpz_admin.Chat.Gate.Grant.{IsPlaced, IsDrained}
use shimpz_admin.Chat.Gate.System.{System}

abbrev pub busy : System → ℕ
busy s = length s.granted + s.holders + s.leaving + s.resting + s.returning

-- A gate state that agrees with the operations of the system.
pub record Agrees (s : System) (g : GateState) : Type 0 where
  -- Nobody waits for a slot before the limit is known.
  pub known : g.limit ≡ none → g.waiting ≡ []
  -- The slots counted as running are those granted or held.
  pub slots : g.running ≡ length s.granted + s.holders
  pub rests : g.resting ≡ s.resting
  pub reads : g.reading ≡ s.asking + s.answered
  -- Nobody waits for the answer of a read that is not under way.
  pub asks : g.limit_read ≡ false → s.asking ≡ 0
  -- Before the limit is known nothing is under way but reads of it.
  pub idle : g.limit ≡ none → busy s ≡ 0

pub record Inv (s : System) : Type 0 where
  pub agrees : Agrees s s.gate
  -- No wakeup is lost.
  pub served : s.resting ≡ 0 → s.returning ≡ 0 → IsDrained s.gate
  -- Every waiter was told its place.
  pub placed : IsPlaced 0 s.gate.waiting
