-- ===== src/Jobs/Store.antt =====
-- store.go: the operations of the store on a job and its attempts.
use agent_fox.Prelude.{
  ℕ, ◌+◌, String, Bool, true, false, ◌&&◌, Option, none, some, List, [], ◌∷◌, if◌then◌else◌, ◌==◌,
  coalesce, ℕ_Eq, String_Eq,
}
use agent_fox.Table.{select_first, max_where}
use agent_fox.Jobs.Model.{
  Kind, State, state_eq, finished, open_state, AttemptState, Trigger, TriggerKind, Source, Answer,
  Kind_Eq,
}
use agent_fox.Jobs.Rows.{
  Job, Attempt, JobStateData, job_state, attempt_start, is_job, of_job, is_attempt, attempt_open,
}
use agent_fox.Jobs.Txn.{
  Env, M, not_found, not_claimable, no_rows, state_error, op_insert_job, op_insert_attempt,
  op_claim, pure, throw, ◌>>=◌, ◌>>◌, get_db, of_option, fails, update_jobs, insert_job,
  update_attempts, insert_attempt_row, emit,
}

-- NewJob: what a job is made from.
pub record NewJob : Type 0 where
  pub workspace : String
  pub kind : Kind
  pub input : String
  pub context : List String
  pub issue : Option ℕ
  pub source : Source
  pub request_label : String

abbrev pub state_in : State → List State → Bool
state_in s [] = false
state_in s (t ∷ ts) = if state_eq s t then true else state_in s ts

-- jobStateData of a state that is not at rest and says no more.
abbrev pub moved_to : State → ℕ → JobStateData
moved_to s attempt = record {
  state = s;
  attempt = attempt;
  at_rest = false;
  blocked = none;
  result = none;
}

-- txn.refusal: the error of a transition that changed nothing.
unfoldable pub refusal : {A : Type 0} → String → M A
refusal id = do
  db ← get_db
  j ← of_option not_found (select_first (is_job id) db.jobs)
  throw (state_error j.state)

-- Store.transition. The SET clause depends on the state that the job goes to.
abbrev pub set_state : ℕ → State → Job → Job
set_state now to j = record j {
  state = to;
  finished_at = if finished to then some now else none;
  started_at = if state_eq to State.running then some (coalesce j.started_at now) else j.started_at;
}

unfoldable pub transition : Env → String → List State → State → M Bool
transition env id from to = do
  n ← update_jobs (λ j. is_job id j && state_in j.state from) (set_state env.now to)
  pure (if n == 0 then false else true)

-- txn.insertAttempt: attempt n of the job, last in the order of all attempts.
abbrev pub new_attempt : String → ℕ → ℕ → Trigger → Option Answer → List String → Attempt
new_attempt id n seq trigger answer notes = record {
  job_id = id;
  n = n;
  state = AttemptState.queued;
  queue_seq = seq;
  trigger_kind = trigger.kind;
  trigger_by = trigger.by;
  answer = answer;
  context = elim notes [ [] ↦ none | s ∷ ss ↦ some (s ∷ ss) ];
  deliveries = 0;
  transient_failures = 0;
  max_attempts = 0;
  in_runner = false;
  hub_session = none;
  hub_run = none;
  hub_sandbox = none;
  question = none;
  options = none;
  status = none;
  exit_code = none;
  summary = none;
  error = none;
  artifacts = none;
  side_effects = none;
  usage = none;
  has_envelope = false;
  has_report = false;
  started_at = none;
  finished_at = none;
}

unfoldable pub insert_attempt :
    Env → String → ℕ → Trigger → Option Answer → List String → M (Unit {0})
insert_attempt env id n trigger answer notes = do
  fails env op_insert_attempt
  db ← get_db
  let seq = max_where (λ a. true) (λ a. a.queue_seq) db.attempts + 1
  insert_attempt_row (new_attempt id n seq trigger answer notes)

-- Store.CreateJob, given the id that newJobID made.
abbrev pub new_job : Env → String → NewJob → Job
new_job env id in_ = record {
  id = id;
  workspace = in_.workspace;
  kind = in_.kind;
  input = in_.input;
  context = in_.context;
  issue = in_.issue;
  source_kind = in_.source.kind;
  source_by = in_.source.by;
  request_label = if in_.request_label == "" then none else some in_.request_label;
  state = State.queued;
  labels_set = none;
  labels_removed = none;
  labels_restore = none;
  cancel_cause = none;
  cleanup = none;
  cleanup_wanted = false;
  cleanup_warned = false;
  created_at = env.now;
  started_at = none;
  finished_at = none;
}

unfoldable pub create_job : Env → String → NewJob → M String
create_job env id in_ = do
  fails env op_insert_job
  insert_job (new_job env id in_)
  insert_attempt env id 1 (record { kind = TriggerKind.create; by = in_.source.by }) none []
  emit env id 1 (job_state (moved_to State.queued 1))
  pure id

-- txn.requeue, which is Store.RequeueWith in a transaction of its own.
unfoldable pub requeue : Env → String → State → Trigger → Option Answer → List String → M ℕ
requeue env id from trigger answer notes = do
  changed ← transition env id (from ∷ []) State.queued
  if changed
      then (do
        db ← get_db
        let n = max_where (of_job id) (λ a. a.n) db.attempts + 1
        insert_attempt env id n trigger answer notes
        emit env id n (job_state (moved_to State.queued n))
        pure n)
      else refusal id

-- Store.Claim. The result is Claimed.Delivery.
abbrev pub claimable : String → ℕ → Attempt → Bool
claimable id n a = is_attempt id n a && attempt_open a.state

abbrev pub hand_over : ℕ → Attempt → Attempt
hand_over now a = record a {
  state = AttemptState.running;
  deliveries = a.deliveries + 1;
  started_at = some (coalesce a.started_at now);
  in_runner = false;
  hub_session = none;
  hub_run = none;
  hub_sandbox = none;
}

unfoldable pub claim : Env → String → ℕ → M ℕ
claim env id attempt = do
  n ← update_attempts (claimable id attempt) (hand_over env.now)
  if n == 0 then throw not_claimable else pure tt
  fails env op_claim
  db ← get_db
  before ← of_option no_rows (select_first (is_job id) db.jobs)
  changed ← transition env id (State.queued ∷ State.running ∷ []) State.running
  if changed then pure tt else throw not_claimable
  db ← get_db
  a ← of_option no_rows (select_first (is_attempt id attempt) db.attempts)
  if state_eq before.state State.queued
      then emit env id attempt (job_state (moved_to State.running attempt))
      else pure tt
  emit env id attempt (attempt_start attempt a.deliveries)
  pure a.deliveries

-- Store.MarkInRunner
unfoldable pub mark_in_runner : String → ℕ → M ℕ
mark_in_runner id attempt =
    update_attempts (is_attempt id attempt) (λ a. record a { in_runner = true })

-- Store.SetHub; NULLIF(?, '') makes an empty reference none.
abbrev pub null_if_empty : String → Option String
null_if_empty s = if s == "" then none else some s

abbrev pub running_attempt : String → ℕ → Attempt → Bool
running_attempt id n a =
    is_attempt id n a && (elim a.state [ AttemptState.running ↦ true | _ ↦ false ])

unfoldable pub set_hub : String → ℕ → String → String → String → M ℕ
set_hub id attempt session run sandbox = update_attempts (running_attempt id attempt) (λ a.
    record a {
      hub_session = null_if_empty session;
      hub_run = null_if_empty run;
      hub_sandbox = null_if_empty sandbox;
    })

-- Store.OpenJobID
abbrev pub open_for : String → Kind → ℕ → Job → Bool
open_for workspace kind issue j =
    j.workspace == workspace
    && (j.kind == kind
        && ((elim j.issue [ none ↦ false | some i ↦ i == issue ]) && open_state j.state))

unfoldable pub open_job_id : String → Kind → ℕ → M String
open_job_id workspace kind issue = do
  db ← get_db
  j ← of_option not_found (select_first (open_for workspace kind issue) db.jobs)
  pure j.id

-- Store.WorkspaceOf and Store.JobState
unfoldable pub workspace_of : String → M String
workspace_of id = do
  db ← get_db
  j ← of_option not_found (select_first (is_job id) db.jobs)
  pure j.workspace

unfoldable pub get_state : String → M State
get_state id = do
  db ← get_db
  j ← of_option not_found (select_first (is_job id) db.jobs)
  pure j.state

-- Store.NoteTransient: the failures of the attempt, this one included. A RETURNING of no row is
-- sql.ErrNoRows.
unfoldable pub note_transient : String → ℕ → M ℕ
note_transient id attempt = do
  n ←
      update_attempts (running_attempt id attempt)
        (λ a. record a { transient_failures = a.transient_failures + 1 })
  if n == 0 then throw no_rows else pure tt
  db ← get_db
  a ← of_option no_rows (select_first (running_attempt id attempt) db.attempts)
  pure a.transient_failures

-- Store.Backoff of transient.go
unfoldable pub backoff : Env → String → ℕ → M Bool
backoff env id attempt = do
  n ← update_attempts (running_attempt id attempt) (λ a. record a { state = AttemptState.queued })
  if n == 0 then pure false else (do
    changed ← transition env id (State.running ∷ []) State.queued
    if changed then pure tt else refusal id
    emit env id attempt (job_state (moved_to State.queued attempt))
    pure true)
