-- ===== src/Jobs/Tests.antt =====
-- The jobs layer on concrete calls, and the theorems at concrete inputs.
use agent_fox.Jobs.Sweeping.{entry_of, waiting, run_calls_swept}
use agent_fox.Jobs.Invariant.Numbered.{run_calls_numbered}
use agent_fox.Table.Numbering.{NumberedFrom}
use agent_fox.Jobs.Cancel.{cancel_job, found_of, text_before}
use agent_fox.Jobs.Finish.{end_attempt, end_open, end_cancelled, lettered}
use agent_fox.Jobs.Rounds.{ruling_auto, IsTransient, HasRoom}
use agent_fox.Jobs.Turns.{plan_claims_one}
use agent_fox.Jobs.Invariant.Fitting.{run_calls_fit}
use agent_fox.Jobs.Broker.Delivery.{delivered, published_of, turns_deliver}
use agent_fox.Jobs.Invariant.Reachable.{run_calls-IsSound}
use agent_fox.Jobs.Publishing.Logged.{removes, run_calls_published}
use agent_fox.Jobs.Store.{
  NewJob, new_job, new_attempt, create_job, insert_attempt, requeue, claim, transition, refusal,
}
use agent_fox.Jobs.Broker.{turns, Turn, subscription, publishes, reads, cancels, subscriber_buffer}
use agent_fox.Jobs.Dispatch.{plan, first_of_workspace, queued_attempts}
use agent_fox.Jobs.Rows.{Db, Event, reported, one_open, clashes, of_job}
use agent_fox.Jobs.Ruling.{ruling, round_size, round_start, round_limit, automatic}
use agent_fox.Jobs.Layer.{
  run_calls, Outcome, Call, new_world, creates, claims, finishes, cancels, step, finish_args,
}
use agent_fox.Table.{
  exists_where, select_first, select_least, select_where, update_where, count_where, max_where,
  order_by,
}
use agent_fox.Jobs.Invariant.View.{fits, state_of, queued_count, running_count}
use agent_fox.Jobs.Invariant.Sound.{IsSound}
use agent_fox.Jobs.Model.{
  Status, ErrorInfo, Envelope, fix, pos, State, TriggerKind, Cause, exit_code,
}
use agent_fox.Prelude.{
  ℕ, List, String, none, Option, true, some, [], ◌≡◌, ◌∷◌, false, length, ◌++◌, refl, ◌≤◌, ◌↔◌,
  arith, ltb,
}
use agent_fox.Jobs.Txn.{
  op_claim, op_insert_job, op_insert_attempt, op_insert_event, Env, run, commit, emit, insert_event,
  note_event, insert_event_row, insert_attempt_row, insert_job, update_jobs, update_attempts, fails,
  get_db, of_option, pure, throw, ◌>>=◌,
}

abbrev quiet : Env
quiet = record { now = 5; fault = λ op. none }

-- A store whose claims fail.
abbrev failing : Env
failing = record {
  now = 6;
  fault = elim [
    | op_claim ↦ some 7
    | op_insert_job ↦ none
    | op_insert_attempt ↦ none
    | op_insert_event ↦ none
  ];
}

abbrev for_issue : ℕ → NewJob
for_issue n = record {
  workspace = "w";
  kind = fix;
  input = "issue";
  context = [];
  issue = some n;
  source = record { kind = "api"; by = "operator" };
  request_label = "";
}

abbrev envelope_of : Status → Option ErrorInfo → Envelope
envelope_of status error = record {
  status = status;
  summary = "summary";
  outcome = "";
  needs_human = none;
  error = error;
  artifacts = [];
  side_effects = [];
  usage = "{}";
}

abbrev no_result_error : ErrorInfo
no_result_error = record {
  category = "no_result";
  message = "no result";
  retryable = true;
  fix_hint = none;
}

abbrev outcome_of : Envelope → Outcome
outcome_of env = record {
  env = env;
  max_attempts = pos 0;
  has_report = false;
  labels_set = [];
  labels_removed = [];
  files_ok = true;
}

-- A job fails once and is tried again; another is cancelled while it runs; a claim fails.
abbrev some_calls : List (Env × Call)
some_calls =
    (quiet, creates "A" (for_issue 1))
    ∷ (quiet, creates "B" (for_issue 2))
    ∷ (quiet, creates "C" (for_issue 1))
    ∷ (failing, claims "A" 1)
    ∷ (quiet, claims "A" 1)
    ∷ (quiet, finishes "A" 1 (outcome_of (envelope_of Status.failed (some no_result_error))) false)
    ∷ (quiet, claims "B" 1)
    ∷ (quiet, cancels "B" State.running false Cause.cancelled)
    ∷ []

run_calls-IsSound_example : IsSound (run_calls new_world some_calls).db
run_calls-IsSound_example = run_calls-IsSound some_calls

run_calls_fit_example :
    fits
      (state_of "B" (run_calls new_world some_calls).db)
      (queued_count "B" (run_calls new_world some_calls).db)
      (running_count "B" (run_calls new_world some_calls).db)
    ≡ true
run_calls_fit_example = run_calls_fit some_calls "B"

run_calls_published_example :
    (run_calls new_world some_calls).db.events ≡ (run_calls new_world some_calls).published
unfolding exists_where removes
run_calls_published_example = run_calls_published some_calls refl

-- What the calls come to.
states_after :
    (state_of "A" (run_calls new_world some_calls).db ≡ some State.queued)
    × (state_of "B" (run_calls new_world some_calls).db ≡ some State.cancelled)
    × (state_of "C" (run_calls new_world some_calls).db ≡ none)
    × (running_count "B" (run_calls new_world some_calls).db ≡ 1)
    × (length (run_calls new_world some_calls).published ≡ 9)
unfolding run_calls step run commit create_job insert_attempt requeue claim transition refusal
    finish_args end_attempt end_open end_cancelled cancel_job found_of ruling round_size round_start
    round_limit automatic exit_code lettered emit insert_event note_event insert_event_row
    insert_attempt_row insert_job update_jobs update_attempts fails get_db of_option pure throw
    ◌>>=◌ one_open clashes exists_where select_first select_where update_where count_where max_where
    state_of queued_count running_count
states_after = (refl, refl, refl, refl, refl)

abbrev failed_env : Envelope
failed_env = envelope_of Status.failed (some no_result_error)

ruling_auto_example : ((ruling failed_env [] 1 (round_limit (pos 0)) false).auto ≡ true) ↔ (
    (failed_env.status ≡ Status.failed)
    × IsTransient failed_env
    × (false ≡ false)
    × HasRoom [] 1 (pos 0))
ruling_auto_example = ruling_auto failed_env [] 1 (pos 0) false (omega arith)

abbrev two_jobs : Db
two_jobs = record {
  jobs = new_job quiet "A" (for_issue 1) ∷ new_job quiet "B" (for_issue 2) ∷ [];
  attempts =
      new_attempt "A" 1 1 (record { kind = TriggerKind.create; by = "operator" }) none []
      ∷ new_attempt "B" 1 2 (record { kind = TriggerKind.create; by = "operator" }) none []
      ∷ [];
  events = [];
}

abbrev first_job : String
first_job = "A"

abbrev first_number : ℕ
first_number = 1

plan_claims_one_example : (first_job ≡ first_job) × (first_number ≡ first_number)
unfolding plan first_of_workspace select_first select_least
plan_claims_one_example =
    plan_claims_one first_job first_job first_number first_number two_jobs two_jobs two_jobs
      two_jobs two_jobs refl refl refl refl refl

abbrev event_for : String → ℕ → Event
event_for job n = record {
  job_id = job;
  seq = n;
  attempt = 1;
  ts = 0;
  body = reported "text" "line";
}

abbrev some_turns : List Turn
some_turns =
    publishes (event_for "A" 1)
    ∷ publishes (event_for "B" 1)
    ∷ reads
    ∷ publishes (event_for "A" 2)
    ∷ cancels
    ∷ publishes (event_for "A" 3)
    ∷ []

turns_deliver_example :
    let s = turns (subscription false "A") some_turns in
    (missed : List Event) × (delivered s ++ missed ≡ published_of "A" some_turns)
    × (s.done ≡ false → missed ≡ [])
    × (length s.channel ≤ subscriber_buffer)
turns_deliver_example = turns_deliver "A" some_turns

run_calls_numbered_example :
    NumberedFrom (of_job "A") (λ a. a.n) 0 (run_calls new_world some_calls).db.attempts
run_calls_numbered_example = run_calls_numbered some_calls "A"

abbrev none_queued : Db
none_queued = record two_jobs { attempts = [] }

run_calls_swept_example :
    count_where (entry_of "A") (queued_attempts (run_calls new_world some_calls).db)
    ≡ waiting (state_of "A" (run_calls new_world some_calls).db)
run_calls_swept_example = run_calls_swept some_calls "A"

-- The ids that are open, by the time of their job and then by the text.
text_order :
    (text_before "A" "B" ≡ true)
    × (text_before "B" "A" ≡ false)
    × (text_before "A" "A" ≡ false)
    × (text_before "A" "AB" ≡ true)
    × (order_by (λ m n. ltb m n) (3 ∷ 1 ∷ 2 ∷ []) ≡ 1 ∷ 2 ∷ 3 ∷ [])
unfolding text_before order_by
text_order = (refl, refl, refl, refl, refl)
