-- ===== src/Fix/Tests.antt =====
-- RunLoop on concrete rounds, and the theorems at them.
use agent_fox.Fix.Bounds.{run_loop_ends}
use agent_fox.Fix.{
  ends, Measurement, Params, Running, LoopResult, run_loop, RoundFacts, minute, cost_measured,
  landable, run_from, cost_none, submitted, loop_round, reported, after_round, measured,
  after_submission, after_measure, continue, brain_time, brain_timeout, add_source,
}
use agent_fox.Prelude.{true, false, zero, suc, none, some, refl, [], ℕ, ◌≤◌, arith, ◌≡◌, ◌∷◌, ◌⊎◌}

abbrev a_round : Measurement → RoundFacts
a_round m = record {
  stopped_before = false;
  cost_left = true;
  left = none;
  left_for_brain = some 600_000_000_000;
  sync_failure = none;
  turns = 3;
  source = cost_measured;
  round_end = submitted (reported "fixed");
  stopped_after = false;
  write_failure = none;
  measuring = measured m;
  stopped_measuring = false;
}

abbrev refused_once : ℕ → RoundFacts
refused_once zero = a_round (record { lands = false; refusal = some "lint fails" })
refused_once (suc n) = a_round (record { lands = true; refusal = none })

abbrev bounds : Params
bounds = record { max_turns = 8; baseline = minute }

abbrev after_two : Running
after_two = record {
  state_rounds = 6;
  cost_source = cost_measured;
  used = 6;
  refusal = some "lint fails";
  measurement = some (record { lands = true; refusal = none });
  report = some "fixed";
  asked_question = none;
  last_refusal = some (record { lands = false; refusal = some "lint fails" });
  last_failure = none;
  rounds = 2;
  calls =
      record { round = 5; refusal = none; max_turns = 8; timeout = 360_000_000_000 }
      ∷ record { round = 6; refusal = some "lint fails"; max_turns = 5; timeout = 360_000_000_000 }
      ∷ [];
}

abbrev landed : LoopResult
landed = record { end = landable; error = none; at_end = after_two }

lands_in_two : run_loop 10 bounds refused_once 4 cost_none ≡ ends landed
unfolding run_loop run_from loop_round after_round after_submission after_measure continue
    brain_time brain_timeout add_source
lands_in_two = refl

a_turn_each : (n : ℕ) → 1 ≤ (refused_once n).turns
a_turn_each zero = omega arith
a_turn_each (suc n) = omega arith

run_loop_ends_example :
    (x : LoopResult) × ((run_loop 10 bounds refused_once 4 cost_none ≡ ends x)
      × ((x.at_end.rounds ≤ 1) ⊎ (x.at_end.rounds ≤ 8)))
run_loop_ends_example = run_loop_ends bounds refused_once 4 cost_none 10 a_turn_each (omega arith)
