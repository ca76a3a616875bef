-- ===== src/Fix.antt =====
-- internal/fix/loop.go and state.go: the rounds of a run of af fix. What the brain, the box, the
-- measuring and the clock do in a round is a parameter, and the cost, a float, is the tests the code
-- makes of it. Times are nanoseconds, and a time below zero is zero. A refusal, a report, a question
-- and a failure, which the loop hands on and does not read, are texts.
pub mod Bounds
pub mod Ends
mod Tests
use agent_fox.Prelude.{
  true, false, zero, suc, none, some, refl, [], inl, inr, if◌then◌else◌, ℕ, Option, Bool, ltb, ◌*◌,
  ◌-◌, leb, ◌&&◌, max, List, ◌+◌, String, ◌++◌, not, nat_eq, ◌∷◌,
}

abbrev pub minute : ℕ
minute = 60_000_000_000

abbrev pub second : ℕ
second = 1_000_000_000

-- minBrainTime
abbrev pub min_brain_time : ℕ
min_brain_time = minute

-- MeasureReserve
abbrev pub measure_reserve : ℕ → ℕ
measure_reserve baseline = 3 * baseline + minute

-- BrainTime: none is Unbounded.
unfoldable pub brain_time : Option ℕ → ℕ → Option ℕ
brain_time none baseline = none
brain_time (some left) baseline = some (left - measure_reserve baseline)

abbrev pub has_brain_time : Option ℕ → Bool
has_brain_time none = true
has_brain_time (some time) = leb min_brain_time time

-- Continue: whether cost is left, the turns that are left, and the time.
unfoldable pub continue : Bool → ℕ → Option ℕ → ℕ → Bool
continue cost_left turns_left left baseline =
    cost_left && leb 1 turns_left && has_brain_time (brain_time left baseline)

-- brainTimeout: 0 is no timeout.
abbrev at_least_second : Option ℕ → ℕ
at_least_second none = 0
at_least_second (some time) = max time second

unfoldable pub brain_timeout : Option ℕ → ℕ → ℕ
brain_timeout left baseline = at_least_second (brain_time left baseline)

-- The sources of a cost, and AddUsage of State as far as it is about them.
pub data CostSource : Type 0 where
  no_source cost_none cost_reported cost_measured : CostSource

abbrev pub rank : CostSource → ℕ
rank no_source = 0
rank cost_none = 1
rank cost_reported = 2
rank cost_measured = 3

unfoldable pub add_source : CostSource → CostSource → CostSource
add_source total used = if ltb (rank total) (rank used) then used else total

pub data End : Type 0 where
  landable question exhausted : End

abbrev pub Refusal : Type 0
Refusal = String

abbrev pub Report : Type 0
Report = String

abbrev pub Question : Type 0
Question = String

abbrev pub Failure : Type 0
Failure = String

pub record Measurement : Type 0 where
  pub lands : Bool
  pub refusal : Option Refusal

pub data Submission : Type 0 where
  asked : Question → Submission
  reported : Report → Submission

-- What RunRound returns, and what Measure does.
pub data RoundEnd : Type 0 where
  submitted : Submission → RoundEnd
  round_failed : Failure → RoundEnd

pub data Measured : Type 0 where
  measured : Measurement → Measured
  not_measured : Failure → Measured

-- What happens in a round: the stops of the context, the cost and the times left, the syncing of
-- the box, the turns and the source of the cost that the brain used, what came of it, and fix.json.
pub record RoundFacts : Type 0 where
  pub stopped_before : Bool
  pub cost_left : Bool
  pub left : Option ℕ
  pub left_for_brain : Option ℕ
  pub sync_failure : Option Failure
  pub turns : ℕ
  pub source : CostSource
  pub round_end : RoundEnd
  pub stopped_after : Bool
  pub write_failure : Option Failure
  pub measuring : Measured
  pub stopped_measuring : Bool

-- A call of RunRound: the round, the refusal in its task, and its bounds.
pub record BrainCall : Type 0 where
  pub round : ℕ
  pub refusal : Option Refusal
  pub max_turns : ℕ
  pub timeout : ℕ

pub data RunError : Type 0 where
  was_stopped : RunError
  failed : Failure → RunError

-- LoopResult less End and HoldsChange, with the state of the loop: the rounds and the source of the
-- cost in fix.json, the turns used, the refusal to give to the next round, and the calls made.
pub record Running : Type 0 where
  pub state_rounds : ℕ
  pub cost_source : CostSource
  pub used : ℕ
  pub refusal : Option Refusal
  pub measurement : Option Measurement
  pub report : Option Report
  pub asked_question : Option Question
  pub last_refusal : Option Measurement
  pub last_failure : Option Failure
  pub rounds : ℕ
  pub calls : List BrainCall

pub record LoopResult : Type 0 where
  pub end : End
  pub error : Option RunError
  pub at_end : Running

pub record Params : Type 0 where
  pub max_turns : ℕ
  pub baseline : ℕ

pub data Next : Type 0 where
  ends : LoopResult → Next
  goes_on : Running → Next

abbrev pub end_with : End → Option RunError → Running → Next
end_with kind error r = ends (record { end = kind; error = error; at_end = r })

abbrev pub stop_or : Bool → RunError → RunError
stop_or stopped e = if stopped then was_stopped else e

-- break, with why the last round did not come to a report
abbrev pub break_with : Failure → Running → Next
break_with f r = end_with exhausted none (record r { last_failure = some f })

abbrev pub call_of : Params → RoundFacts → Running → BrainCall
call_of p w r = record {
  round = r.state_rounds + 1;
  refusal = r.refusal;
  max_turns = p.max_turns - r.used;
  timeout = brain_timeout w.left_for_brain p.baseline;
}

-- RunRound is called, and what it used is noted.
abbrev pub called : Params → RoundFacts → Running → Running
called p w r = record r {
  state_rounds = r.state_rounds + 1;
  cost_source = add_source r.cost_source w.source;
  used = r.used + w.turns;
  rounds = r.rounds + 1;
  calls = r.calls ++ call_of p w r ∷ [];
}

-- What the measuring of a report comes to.
abbrev pub refused_by_measure : Measurement → Running → Running
refused_by_measure m r = record r {
  measurement = some m;
  last_refusal = some m;
  refusal = m.refusal;
}

unfoldable pub after_measure : RoundFacts → Measured → Running → Next
after_measure w (not_measured f) r =
    end_with exhausted (some (stop_or w.stopped_measuring (failed f))) r
after_measure w (measured m) r =
    if m.lands
    then end_with landable none (record r { measurement = some m })
    else goes_on (refused_by_measure m r)

unfoldable pub after_submission : RoundFacts → Submission → Running → Next
unfolding after_measure
after_submission w (asked q) r = end_with question none (record r { asked_question = some q })
after_submission w (reported report) r =
    after_measure w w.measuring (record r { report = some report })

-- What RunRound returned, when fix.json is or is not written.
unfoldable pub after_round : RoundFacts → RoundEnd → Option Failure → Running → Next
unfolding after_submission
after_round w (round_failed f) written r =
    if w.stopped_after then end_with exhausted (some was_stopped) r else break_with f r
after_round w (submitted s) (some f) r = end_with exhausted (some (failed f)) r
after_round w (submitted s) none r = after_submission w s r

abbrev pub synced : Bool → Option Failure → Option Failure
synced first failure = if first then none else failure

-- One round of RunLoop.
unfoldable pub loop_round : Params → Bool → RoundFacts → Running → Next
unfolding after_round
loop_round p first w r =
    if w.stopped_before
    then end_with exhausted (some was_stopped) r
    else if not first && not (continue w.cost_left (p.max_turns - r.used) w.left p.baseline)
    then end_with exhausted none r
    else elim (synced first w.sync_failure) [
      | some f ↦ break_with f r
      | none ↦ after_round w w.round_end w.write_failure (called p w r)
    ]

-- RunLoop from its round n on, in at most so many rounds: the result, or what it goes on with. What
-- happens in a round is by its number in the run.
unfoldable pub run_from : ℕ → Params → (ℕ → RoundFacts) → ℕ → Running → Next
run_from zero p world n r = goes_on r
run_from (suc rounds) p world n r = elim (loop_round p (nat_eq n 0) (world n) r) [
  | ends result ↦ ends result
  | goes_on r' ↦ run_from rounds p world (n + 1) r'
]

abbrev pub start : ℕ → CostSource → Running
start state_rounds sofar = record {
  state_rounds = state_rounds;
  cost_source = sofar;
  used = 0;
  refusal = none;
  measurement = none;
  report = none;
  asked_question = none;
  last_refusal = none;
  last_failure = none;
  rounds = 0;
  calls = [];
}

-- RunLoop, seen for at most so many rounds: the code has no such number, and goes on.
unfoldable pub run_loop : ℕ → Params → (ℕ → RoundFacts) → ℕ → CostSource → Next
run_loop rounds p world state_rounds sofar = run_from rounds p world 0 (start state_rounds sofar)
