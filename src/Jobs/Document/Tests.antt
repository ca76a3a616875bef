-- ===== src/Jobs/Document/Tests.antt =====
-- The document of a job that runs on the hub.
use agent_fox.Table.{exists_where, select_first, select_where, update_where, count_where, max_where}
use agent_fox.Jobs.Rows.{one_open, clashes}
use agent_fox.Jobs.Document.Hub.{run_calls_hub}
use agent_fox.Jobs.Model.{triage, State}
use agent_fox.Jobs.Store.{state_in, create_job, insert_attempt, claim, transition, set_hub}
use agent_fox.Jobs.Layer.{run_calls, Call, step, creates, claims, sets_hub, new_world}
use agent_fox.Jobs.Document.{
  Doc, none, State, some, [], no_usage, true, select_first, select_where, doc_of, build_doc,
  last_where, usage_sum, usage_of,
}
use agent_fox.Prelude.{List, none, some, ◌∷◌, [], ◌≡◌, true, false, refl}
use agent_fox.Jobs.Txn.{
  Env, run, commit, emit, insert_event, note_event, insert_event_row, insert_attempt_row,
  insert_job, update_jobs, update_attempts, fails, get_db, of_option, pure, throw, ◌>>=◌,
}

abbrev env : Env
env = record { now = 5; fault = λ op. none }

abbrev hub_calls : List (Env × Call)
hub_calls =
    (
      env,
      creates "A" (record {
        workspace = "w";
        kind = triage;
        input = "issue";
        context = [];
        issue = some 1;
        source = record { kind = "api"; by = "operator" };
        request_label = "";
      }),
    )
    ∷ (env, claims "A" 1)
    ∷ (env, sets_hub "A" 1 "session" "" "")
    ∷ []

abbrev hub_doc : Doc
hub_doc = record {
  id = "A";
  workspace = "w";
  kind = triage;
  input = "issue";
  issue = some 1;
  source = record { kind = "api"; by = "operator" };
  request_label = none;
  state = State.running;
  blocked = none;
  attempt_count = 1;
  current_attempt = 1;
  result = none;
  artifacts = [];
  side_effects = [];
  labels = none;
  cancel_cause = none;
  usage = no_usage;
  hub = some (record { session_id = some "session"; run_id = none; sandbox_id = none });
  created_at = 5;
  started_at = some 5;
  finished_at = none;
  attempts = [];
}

hub_doc_shown : doc_of (λ text. none) "A" false (run_calls new_world hub_calls).db ≡ some hub_doc
unfolding run_calls step run commit create_job insert_attempt claim transition set_hub emit
    insert_event note_event insert_event_row insert_attempt_row insert_job update_jobs
    update_attempts fails get_db of_option pure throw ◌>>=◌ one_open clashes exists_where
    select_first select_where update_where count_where max_where doc_of build_doc last_where
    usage_sum usage_of
hub_doc_shown = refl

run_calls_hub_example : state_in State.running (State.running ∷ State.cancelled ∷ []) ≡ true
run_calls_hub_example = run_calls_hub hub_calls (λ text. none) "A" false hub_doc hub_doc_shown refl
