-- ===== src/Jobs/Finish.antt =====
-- finish.go: the end of an attempt (EndAttempt, endCancelled), and what the layer records of it.
use agent_fox.Prelude.{
  ℕ, suc, String, Bool, true, false, ◌&&◌, Option, none, some, List, [], ◌∷◌, if◌then◌else◌, ◌==◌,
  ℕ_Eq, String_Eq, concat, is_empty,
}
use agent_fox.Table.{select_first}
use agent_fox.Jobs.Model.{
  State, state_eq, AttemptState, TriggerKind, AnswerOption, exit_code, Envelope, NeedsHuman,
  ResultDoc, Cleanup,
}
use agent_fox.Jobs.Rows.{Job, Attempt, JobStateData, job_state, attempt_end, is_job, is_attempt}
use agent_fox.Jobs.Txn.{
  Env, M, no_rows, panic, file_error, pure, throw, ◌>>=◌, ◌>>◌, get_db, of_option, update_jobs,
  update_attempts, emit,
}
use agent_fox.Jobs.Store.{transition, refusal, requeue, running_attempt}
use agent_fox.Jobs.Ruling.{Verdict}

-- lettered: the options of a question with the ids A, B, … in order.
unfoldable pub lettered_from : ℕ → List AnswerOption → List AnswerOption
lettered_from i [] = []
lettered_from i (o ∷ os) = record { id = i ∷ []; label = o.label } ∷ lettered_from (suc i) os

unfoldable pub lettered : List AnswerOption → List AnswerOption
unfolding lettered_from
lettered os = lettered_from b'A' os

-- answerWith of document.go
abbrev pub answer_with : String → String
answer_with id = concat "POST /api/v1/jobs/" (concat id "/answer")

-- endArgs: what an attempt came to, as the store records it. `files_ok` says that the files of the
-- attempt could be written.
pub record EndArgs : Type 0 where
  pub id : String
  pub attempt : ℕ
  pub verdict : Verdict
  pub env : Envelope
  pub max_attempts : ℕ
  pub has_report : Bool
  pub labels_set : List String
  pub labels_removed : List String
  pub files_ok : Bool

-- What EndAttempt says: whether it ended the attempt, the automatic attempt that it made (0 for
-- none), and whether it marked the cancel cleanup pending.
pub record Ended : Type 0 where
  pub ended : Bool
  pub next : ℕ
  pub cleanup : Bool

abbrev is_cancelled : State → Bool
is_cancelled s = state_eq s State.cancelled

abbrev job_cancelled : String → List Job → Bool
job_cancelled id jobs = elim (select_first (is_job id) jobs) [
  | none ↦ false
  | some j ↦ is_cancelled j.state
]

-- The question and the options that are stored with an attempt that needs a human.
abbrev asked : Verdict → Envelope → Option (Option NeedsHuman)
asked v env = elim v.attempt [
  | AttemptState.needs_human ↦ elim env.needs_human [ none ↦ none | some q ↦ some (some q) ]
  | _ ↦ some none
]

-- The SET clause of the end of an attempt.
abbrev pub set_end : ℕ → AttemptState → EndArgs → Option NeedsHuman → Attempt → Attempt
set_end now state a asks row = record row {
  state = state;
  max_attempts = a.max_attempts;
  status = some a.env.status;
  exit_code = some (exit_code a.env.status);
  summary = some a.env.summary;
  error = a.env.error;
  artifacts = some a.env.artifacts;
  side_effects = some a.env.side_effects;
  usage = some a.env.usage;
  question = elim asks [ none ↦ none | some q ↦ some q.question ];
  options = elim asks [ none ↦ none | some q ↦ some (lettered q.options) ];
  has_envelope = true;
  has_report = a.has_report;
  finished_at = some now;
}

abbrev result_doc : Envelope → ResultDoc
result_doc env = record {
  status = env.status;
  exit_code = exit_code env.status;
  summary = env.summary;
  error = env.error;
}

abbrev contains : String → List String → Bool
contains s [] = false
contains s (x ∷ xs) = if x == s then true else contains s xs

-- txn.endCancelled
abbrev reported_set : Option String → List String → Bool
reported_set none set = false
reported_set (some label) set = contains label set

abbrev pub no_session : String → ℕ → List Attempt → Bool
no_session id n as_ = elim (select_first (is_attempt id n) as_) [
  | none ↦ true
  | some a ↦ elim a.hub_session [ none ↦ true | some s ↦ false ]
]

abbrev pub unmarked : Job → Bool
unmarked j = j.cleanup_wanted && (elim j.cleanup [ none ↦ true | some c ↦ false ])

unfoldable pub end_cancelled : Env → EndArgs → Option String → M Bool
end_cancelled env a request_label = do
  if reported_set request_label a.labels_set
      then update_jobs (is_job a.id) (λ j. record j { labels_restore = none })
      else pure 0
  db ← get_db
  n ←
      update_jobs (λ j. is_job a.id j && (unmarked j && no_session a.id a.attempt db.attempts))
        (λ j. record j { cleanup = some Cleanup.pending })
  emit env a.id a.attempt (
      job_state (record {
        state = State.cancelled;
        attempt = a.attempt;
        at_rest = true;
        blocked = none;
        result = some (result_doc a.env);
      }))
  pure (if n == 0 then false else true)

-- The jobStateData of a job that the end of its attempt brought to rest.
abbrev at_rest_data : EndArgs → Option NeedsHuman → JobStateData
at_rest_data a asks = record {
  state = a.verdict.job;
  attempt = a.attempt;
  at_rest = true;
  blocked =
      if state_eq a.verdict.job State.blocked
      then (elim asks [
        | none ↦ none
        | some q ↦ some (record {
          reason = "needs_human";
          question = q.question;
          options = lettered q.options;
          answer_with = answer_with a.id;
        })
      ])
      else none;
  result = if state_eq a.verdict.job State.blocked then none else some (result_doc a.env);
}

-- The end of an attempt of a job that was not cancelled: an automatic attempt, or the transition of
-- the job.
unfoldable pub end_open : Env → EndArgs → Option NeedsHuman → M Ended
end_open env a asks =
    if a.verdict.auto
    then (do
      next ←
          requeue env a.id State.running (record { kind = TriggerKind.auto; by = "agent-fox" }) none
            []
      pure (record { ended = true; next = next; cleanup = false }))
    else (do
      changed ← transition env a.id (State.running ∷ []) a.verdict.job
      if changed then pure tt else refusal a.id
      emit env a.id a.attempt (job_state (at_rest_data a asks))
      pure (record { ended = true; next = 0; cleanup = false }))

-- Store.EndAttempt. An attempt that is not running is left as it is.
unfoldable pub end_attempt : Env → EndArgs → M Ended
end_attempt env a = do
  asks ← of_option panic (asked a.verdict a.env)
  db ← get_db
  let state = if job_cancelled a.id db.jobs then AttemptState.cancelled else a.verdict.attempt
  n ← update_attempts (running_attempt a.id a.attempt) (set_end env.now state a asks)
  if n == 0 then pure (record { ended = false; next = 0; cleanup = false }) else (do
    if a.files_ok then pure tt else throw file_error
    if is_empty a.labels_set && is_empty a.labels_removed
        then pure 0
        else update_jobs (is_job a.id) (λ j. record j {
          labels_set = some a.labels_set;
          labels_removed = some a.labels_removed;
        })
    db ← get_db
    j ← of_option no_rows (select_first (is_job a.id) db.jobs)
    emit env a.id a.attempt (
        attempt_end a.attempt
          (if is_cancelled j.state then AttemptState.cancelled else a.verdict.attempt) a.env.status
          (exit_code a.env.status))
    if is_cancelled j.state
        then (do
          cleanup ← end_cancelled env a j.request_label
          pure (record { ended = true; next = 0; cleanup = cleanup }))
        else end_open env a asks)
