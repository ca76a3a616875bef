-- ===== src/Jobs/Rows.antt =====
-- The schema of internal/service/store/migrations.go: the rows of af_jobs, af_attempts and
-- af_events, and the state file of the three. A time is a number of milliseconds.
use agent_fox.Prelude.{
  ℕ, String, Bool, true, false, not, ◌&&◌, Option, some, List, [], ◌∷◌, ◌==◌, String_Eq, ℕ_Eq,
}
use agent_fox.Table.{exists_where}
use agent_fox.Jobs.Model.{
  Kind, State, AttemptState, TriggerKind, Answer, AnswerOption, Blocked, Status, ErrorInfo,
  ResultDoc, Cleanup, Cause, open_state, Kind_Eq,
}

pub record Job : Type 0 where
  pub id : String
  pub workspace : String
  pub kind : Kind
  pub input : String
  pub context : List String
  pub issue : Option ℕ
  pub source_kind : String
  pub source_by : String
  pub request_label : Option String
  pub state : State
  pub labels_set : Option (List String)
  pub labels_removed : Option (List String)
  pub labels_restore : Option String
  pub cancel_cause : Option Cause
  pub cleanup : Option Cleanup
  pub cleanup_wanted : Bool
  pub cleanup_warned : Bool
  pub created_at : ℕ
  pub started_at : Option ℕ
  pub finished_at : Option ℕ

pub record Attempt : Type 0 where
  pub job_id : String
  pub n : ℕ
  pub state : AttemptState
  pub queue_seq : ℕ
  pub trigger_kind : TriggerKind
  pub trigger_by : String
  pub answer : Option Answer
  pub context : Option (List String)
  pub deliveries : ℕ
  pub transient_failures : ℕ
  pub max_attempts : ℕ
  pub in_runner : Bool
  pub hub_session : Option String
  pub hub_run : Option String
  pub hub_sandbox : Option String
  pub question : Option String
  pub options : Option (List AnswerOption)
  pub status : Option Status
  pub exit_code : Option ℕ
  pub summary : Option String
  pub error : Option ErrorInfo
  pub artifacts : Option (List String)
  pub side_effects : Option (List String)
  pub usage : Option String
  pub has_envelope : Bool
  pub has_report : Bool
  pub started_at : Option ℕ
  pub finished_at : Option ℕ

-- jobStateData of store.go.
pub record JobStateData : Type 0 where
  pub state : State
  pub attempt : ℕ
  pub at_rest : Bool
  pub blocked : Option Blocked
  pub result : Option ResultDoc

-- The type of an event with its data: the layer's own, and those that a runner reports.
pub data EventData : Type 0 where
  job_state : JobStateData → EventData
  attempt_start : ℕ → ℕ → EventData
  attempt_end : ℕ → AttemptState → Status → ℕ → EventData
  reported : String → String → EventData

pub record Event : Type 0 where
  pub job_id : String
  pub seq : ℕ
  pub attempt : ℕ
  pub ts : ℕ
  pub body : EventData

pub record Db : Type 0 where
  pub jobs : List Job
  pub attempts : List Attempt
  pub events : List Event

abbrev pub empty_db : Db
empty_db = record { jobs = []; attempts = []; events = [] }

-- The conditions of the statements.
abbrev pub is_job : String → Job → Bool
is_job id j = j.id == id

abbrev pub of_job : String → Attempt → Bool
of_job id a = a.job_id == id

abbrev pub is_attempt : String → ℕ → Attempt → Bool
is_attempt id n a = a.job_id == id && a.n == n

abbrev pub event_of : String → Event → Bool
event_of id e = e.job_id == id

abbrev pub attempt_queued : AttemptState → Bool
attempt_queued AttemptState.queued = true
attempt_queued _ = false

abbrev pub attempt_running : AttemptState → Bool
attempt_running AttemptState.running = true
attempt_running _ = false

-- state IN ('queued', 'running'), of an attempt and of a job.
abbrev pub attempt_open : AttemptState → Bool
attempt_open AttemptState.queued = true
attempt_open AttemptState.running = true
attempt_open _ = false

abbrev pub job_active : State → Bool
job_active State.queued = true
job_active State.running = true
job_active _ = false

-- Two rows that the partial unique index af_jobs_one_open_per_issue keeps apart.
abbrev pub same_issue : Option ℕ → Option ℕ → Bool
same_issue (some a) (some b) = a == b
same_issue _ _ = false

unfoldable pub clashes : Job → Job → Bool
clashes i j =
    (open_state i.state && open_state j.state)
    && (i.workspace == j.workspace && (i.kind == j.kind && same_issue i.issue j.issue))

-- Whether the index af_jobs_one_open_per_issue holds.
unfoldable pub one_open : List Job → Bool
one_open [] = true
one_open (j ∷ js) = not (exists_where (clashes j) js) && one_open js
