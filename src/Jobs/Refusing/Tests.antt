-- ===== src/Jobs/Refusing/Tests.antt =====
-- A claim of the attempt of a job that was cancelled before it ran.
use agent_fox.Jobs.Invariant.View.{state_of}
use agent_fox.Table.{exists_where, select_first, select_where, update_where, count_where, max_where}
use agent_fox.Jobs.Rows.{one_open, clashes}
use agent_fox.Jobs.Refusing.{claim_refused, true, state_of, some}
use agent_fox.Jobs.Cancel.{cancel_job, found_of}
use agent_fox.Jobs.Model.{triage, State, Cause}
use agent_fox.Jobs.Store.{claim, create_job, insert_attempt, refusal}
use agent_fox.Jobs.Layer.{run_calls, Call, step, creates, new_world, cancels}
use agent_fox.Prelude.{List, none, [], ◌≡◌, ◌∷◌, true, some, refl}
use agent_fox.Jobs.Txn.{
  Env, Error, run, commit, err, emit, insert_event, note_event, insert_event_row,
  insert_attempt_row, insert_job, update_jobs, update_attempts, fails, get_db, of_option, pure,
  throw, ◌>>=◌,
}

abbrev env : Env
env = record { now = 5; fault = λ op. none }

abbrev cancelled_calls : List (Env × Call)
cancelled_calls =
    (
      env,
      creates "A" (record {
        workspace = "w";
        kind = triage;
        input = "issue";
        context = [];
        issue = none;
        source = record { kind = "api"; by = "operator" };
        request_label = "";
      }),
    )
    ∷ (env, cancels "A" State.queued true Cause.cancelled)
    ∷ []

cancelled_before : state_of "A" (run_calls new_world cancelled_calls).db ≡ some State.cancelled
unfolding run_calls step run commit create_job insert_attempt cancel_job refusal found_of emit
    insert_event note_event insert_event_row insert_attempt_row insert_job update_jobs
    update_attempts fails get_db of_option pure throw ◌>>=◌ one_open clashes exists_where
    select_first select_where update_where count_where max_where state_of
cancelled_before = refl

claim_refused_example :
    (e : Error) × (run (claim env "A" 1) (run_calls new_world cancelled_calls)
      ≡ (err e, run_calls new_world cancelled_calls))
claim_refused_example =
    claim_refused cancelled_calls env "A" 1 State.cancelled cancelled_before refl
