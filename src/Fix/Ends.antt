-- ===== src/Fix/Ends.antt =====
-- What the ends of RunLoop of internal/fix/loop.go mean.
use agent_fox.Policy.Text.{drop}
use agent_fox.Table.Every.{Each}
use agent_fox.Fix.{
  LoopResult, End, Measurement, Running, exhausted, Bool, ◌∷◌, landable, question, not, nat_eq,
}
use agent_fox.Prelude.{
  true, false, none, some, Option, ℕ, ◌≡◌, is_some, length, ◌+◌, Bool, ◌≤◌, ◌∷◌, not, nat_eq,
}

abbrev pub IsRefused : Option Measurement → Type 0
IsRefused none = Unit
IsRefused (some m) = m.lands ≡ false

-- A landable end: the last measurement lands, and there is a report that it measured.
abbrev pub Lands : LoopResult → Type 0
Lands x =
    (x.error ≡ none)
    × (is_some x.at_end.report ≡ true)
    × ((m : Measurement) × ((x.at_end.measurement ≡ some m) × (m.lands ≡ true)))

-- What an end says of the result.
abbrev pub EndSays : End → LoopResult → Type 0
EndSays landable x = Lands x × (x.at_end.asked_question ≡ none)
EndSays question x = (x.error ≡ none) × (is_some x.at_end.asked_question ≡ true)
EndSays exhausted x = x.at_end.asked_question ≡ none

-- The calls of RunRound: one in each round, all but the first with a turn left for the brain, and the
-- state knows of each.
pub record IsCounted (before : ℕ) (r : Running) : Type 0 where
  pub state_counts : r.state_rounds ≡ before + r.rounds
  pub one_each : length r.calls ≡ r.rounds
  pub with_turns : Each (λ c. 1 ≤ c.max_turns) (drop 1 r.calls)

pub record IsFair (before : ℕ) (r : Running) : Type 0 where
  pub counted : IsCounted before r
  pub none_asked : r.asked_question ≡ none
  pub last_refused : IsRefused r.last_refusal

pub record IsFairEnd (before : ℕ) (x : LoopResult) : Type 0 where
  pub counted : IsCounted before x.at_end
  pub end_says : EndSays x.end x
  pub last_refused : IsRefused x.at_end.last_refusal

-- What a run goes on with after so many rounds: it has counted them all.
abbrev pub IsFairAfter : ℕ → ℕ → Running → Type 0
IsFairAfter before n r = (r.rounds ≡ n) × IsFair before r

-- A round that goes on has been counted.
abbrev CountsOne : ℕ → Running → Type 0
CountsOne n r = r.rounds ≡ n

abbrev AnyEnd : LoopResult → Type 0
AnyEnd x = Unit
