-- ===== src/Jobs/Layer.antt =====
-- The calls that the jobs layer makes of its store (actions.go, queue.go, finish.go, grace.go,
-- sweep.go, retain.go and recorder.go), and the runs of such calls in any order.
use agent_fox.Prelude.{ℕ, String, Bool, false, none, some, List, [], ◌∷◌}
use agent_fox.Table.{select_where}
use agent_fox.Jobs.Model.{State, AttemptState, TriggerKind, Answer, Envelope, Cause, ℤ}
use agent_fox.Jobs.Rows.{Db, of_job, reported, empty_db}
use agent_fox.Jobs.Txn.{Env, World, run, emit}
use agent_fox.Jobs.Store.{
  NewJob, create_job, requeue, claim, mark_in_runner, set_hub, note_transient, backoff,
}
use agent_fox.Jobs.Ruling.{Verdict, ruling, round_limit, default_round}
use agent_fox.Jobs.Finish.{EndArgs, end_attempt}
use agent_fox.Jobs.Cancel.{cancel_job}
use agent_fox.Jobs.Cleaning.{CleanupResult, mark_cleanup, abandon_cleanup, end_cleanup}
use agent_fox.Jobs.Retention.{purge}

-- What a call of the runner came to, as Service.finish has it: the envelope, the attempts that a
-- round may make as the runner reported them, and the labels.
pub record Outcome : Type 0 where
  pub env : Envelope
  pub max_attempts : ℤ
  pub has_report : Bool
  pub labels_set : List String
  pub labels_removed : List String
  pub files_ok : Bool

-- Service.finish: the arguments that it ends the attempt with. `spent` says that the transient
-- failures of the attempt are used up.
unfoldable pub finish_args : Db → String → ℕ → Outcome → Bool → EndArgs
finish_args db id n out spent =
    let limit = round_limit out.max_attempts in
    record {
      id = id;
      attempt = n;
      verdict = ruling out.env (select_where (of_job id) db.attempts) n limit spent;
      env = out.env;
      max_attempts = limit;
      has_report = out.has_report;
      labels_set = out.labels_set;
      labels_removed = out.labels_removed;
      files_ok = out.files_ok;
    }

-- Service.settleCancelled, given the envelope that it synthesizes.
abbrev pub cancelled_verdict : Verdict
cancelled_verdict = record { attempt = AttemptState.cancelled; job = State.cancelled; auto = false }

unfoldable pub settle_args : String → ℕ → Envelope → Bool → EndArgs
settle_args id n env files_ok = record {
  id = id;
  attempt = n;
  verdict = cancelled_verdict;
  env = env;
  max_attempts = default_round;
  has_report = false;
  labels_set = [];
  labels_removed = [];
  files_ok = files_ok;
}

pub data Call : Type 0 where
  creates : String → NewJob → Call
  answers : String → String → Answer → Call
  retries : String → String → List String → Call
  claims : String → ℕ → Call
  marks_in_runner : String → ℕ → Call
  sets_hub : String → ℕ → String → String → String → Call
  notes_transient : String → ℕ → Call
  backs_off : String → ℕ → Call
  finishes : String → ℕ → Outcome → Bool → Call
  settles : String → ℕ → Envelope → Bool → Call
  cancels : String → State → Bool → Cause → Call
  marks_cleanup : String → Call
  abandons_cleanup : String → Call
  ends_cleanup : String → CleanupResult → Call
  purges : String → ℕ → Bool → Call
  appends : String → ℕ → String → String → Call

unfoldable pub step : World → Env × Call → World
step w (env, creates id in_) = (run (create_job env id in_) w).1
step w (env, answers id by answer) =
    (run
      (requeue env id State.blocked (record { kind = TriggerKind.answer; by = by }) (some answer)
        [])
      w).1
step w (env, retries id by notes) =
    (run (requeue env id State.failed (record { kind = TriggerKind.retry; by = by }) none notes)
      w).1
step w (env, claims id n) = (run (claim env id n) w).1
step w (env, marks_in_runner id n) = (run (mark_in_runner id n) w).1
step w (env, sets_hub id n session hub_run sandbox) =
    (run (set_hub id n session hub_run sandbox) w).1
step w (env, notes_transient id n) = (run (note_transient id n) w).1
step w (env, backs_off id n) = (run (backoff env id n) w).1
step w (env, finishes id n out spent) =
    (run (end_attempt env (finish_args w.db id n out spent)) w).1
step w (env, settles id n envelope ok) = (run (end_attempt env (settle_args id n envelope ok)) w).1
step w (env, cancels id from cleanup cause) = (run (cancel_job env id from cleanup cause) w).1
step w (env, marks_cleanup id) = (run (mark_cleanup id) w).1
step w (env, abandons_cleanup id) = (run (abandon_cleanup id) w).1
step w (env, ends_cleanup id res) = (run (end_cleanup id res) w).1
step w (env, purges id cutoff removed) = (run (purge id cutoff removed) w).1
step w (env, appends id n typ text) = (run (emit env id n (reported typ text)) w).1

unfoldable pub run_calls : World → List (Env × Call) → World
run_calls w [] = w
run_calls w (c ∷ cs) = run_calls (step w c) cs

abbrev pub new_world : World
new_world = record { db = empty_db; published = [] }
