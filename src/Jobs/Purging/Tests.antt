-- ===== src/Jobs/Purging/Tests.antt =====
-- The purge of a job that was cancelled.
use agent_fox.Jobs.Rows.{one_open, clashes}
use agent_fox.Table.{
  delete_where, exists_where, select_first, select_where, update_where, count_where, max_where,
}
use agent_fox.Jobs.Retention.{purge, expired, delete_events, delete_attempts, delete_job}
use agent_fox.Jobs.Purging.{
  purged_at_rest, false, purge, expired, get_db, pure, ◌>>=◌, exists_where,
}
use agent_fox.Jobs.Cancel.{cancel_job, found_of}
use agent_fox.Jobs.Invariant.View.{running_count, state_of}
use agent_fox.Jobs.Store.{create_job, insert_attempt, refusal}
use agent_fox.Jobs.Model.{finished, State, triage, Cause}
use agent_fox.Jobs.Layer.{run_calls, Call, step, creates, new_world, cancels}
use agent_fox.Prelude.{List, String, ◌≡◌, none, true, [], some, ◌∷◌, false, refl}
use agent_fox.Jobs.Txn.{
  Env, run, commit, emit, insert_event, note_event, insert_event_row, insert_attempt_row,
  insert_job, update_jobs, update_attempts, fails, get_db, of_option, pure, throw, ◌>>=◌,
}

abbrev env : Env
env = record { now = 5; fault = λ op. none }

abbrev cancelled_calls : List (Env × Call)
cancelled_calls =
    (
      env,
      creates "A" (record {
        workspace = "w";
        kind = triage;
        input = "issue";
        context = [];
        issue = some 1;
        source = record { kind = "api"; by = "operator" };
        request_label = "";
      }),
    )
    ∷ (env, cancels "A" State.queued false Cause.cancelled)
    ∷ []

abbrev the_job : String
the_job = "A"

cancelled_before : state_of the_job (run_calls new_world cancelled_calls).db ≡ some State.cancelled
unfolding run_calls step run commit create_job insert_attempt cancel_job refusal found_of emit
    insert_event note_event insert_event_row insert_attempt_row insert_job update_jobs
    update_attempts fails get_db of_option pure throw ◌>>=◌ one_open clashes exists_where
    select_first select_where update_where count_where max_where state_of
cancelled_before = refl

gone_after :
    state_of the_job (run (purge the_job 10 true) (run_calls new_world cancelled_calls)).1.db ≡ none
unfolding run_calls step run commit create_job insert_attempt cancel_job refusal found_of purge
    expired delete_events delete_attempts delete_job delete_where emit insert_event note_event
    insert_event_row insert_attempt_row insert_job update_jobs update_attempts fails get_db
    of_option pure throw ◌>>=◌ one_open clashes exists_where select_first select_where update_where
    count_where max_where state_of
gone_after = refl

purged_at_rest_example :
    (the_job ≡ the_job)
    × (finished State.cancelled ≡ true)
    × (running_count the_job (run_calls new_world cancelled_calls).db ≡ 0)
purged_at_rest_example =
    purged_at_rest cancelled_calls the_job the_job 10 true State.cancelled cancelled_before
      gone_after
