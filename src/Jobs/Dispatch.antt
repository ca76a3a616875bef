-- ===== src/Jobs/Dispatch.antt =====
-- store.go and sweep.go: what the handler of an item of the queue does with it (Store.Plan), and the
-- attempts that the sweep queues again (Store.QueuedAttempts).
use agent_fox.Prelude.{
  ℕ, String, Bool, false, ◌&&◌, Option, none, some, List, if◌then◌else◌, ◌==◌, ℕ_Eq, String_Eq, map,
}
use agent_fox.Table.{select_first, select_least, select_where}
use agent_fox.Jobs.Rows.{
  Job, Attempt, Db, is_job, is_attempt, attempt_open, attempt_running, job_active, attempt_queued,
}

-- disposition
pub data Disposition : Type 0 where
  disp_ack disp_reap disp_yield disp_claim : Disposition

-- The JOIN of an attempt with its job: the job is of the workspace, and queued or running.
abbrev job_waits : String → Option Job → Bool
job_waits workspace none = false
job_waits workspace (some j) = j.workspace == workspace && job_active j.state

-- An open attempt of the workspace, of a job that is queued or running.
abbrev pub waits : String → List Job → Attempt → Bool
waits workspace jobs a =
    job_waits workspace (select_first (is_job a.job_id) jobs) && attempt_open a.state

-- The first open attempt of the workspace, in the order that the attempts were made.
unfoldable pub first_of_workspace : String → Db → Option Attempt
first_of_workspace workspace db =
    select_least (waits workspace db.jobs) (λ a. a.queue_seq) db.attempts

-- Store.Plan: three reads outside a transaction, of the job, of the attempt and of the first open
-- attempt of the workspace, each of the file as it is then; none is the error of the last one where
-- it finds no row (sql.ErrNoRows).
unfoldable pub plan : String → ℕ → Db → Db → Db → Option Disposition
unfolding first_of_workspace
plan id attempt jobs_read attempts_read first_read =
    elim (select_first (is_job id) jobs_read.jobs) [
      | none ↦ some disp_ack
      | some j ↦ elim (select_first (is_attempt id attempt) attempts_read.attempts) [
        | none ↦ some disp_ack
        | some a ↦
            if job_active j.state
            then (if attempt_open a.state
                then (elim (first_of_workspace j.workspace first_read) [
                  | none ↦ none
                  | some f ↦
                      some (if f.job_id == id && f.n == attempt then disp_claim else disp_yield)
                ])
                else some disp_ack)
            else some (if attempt_running a.state then disp_reap else disp_ack)
      ]
    ]

-- Store.QueuedAttempts: the queued attempts of jobs that are queued or running, in the order they
-- were made. Attempts are stored in that order, which is ORDER BY queue_seq.
abbrev pub owner_active : List Job → String → Bool
owner_active jobs id = elim (select_first (is_job id) jobs) [
  | none ↦ false
  | some j ↦ job_active j.state
]

abbrev pub swept : List Job → Attempt → Bool
swept jobs a = attempt_queued a.state && owner_active jobs a.job_id

unfoldable pub queued_attempts : Db → List (String × ℕ)
queued_attempts db = map (λ a. (a.job_id, a.n)) (select_where (swept db.jobs) db.attempts)
