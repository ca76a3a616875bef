-- ===== src/Jobs/Retention.antt =====
-- retain.go: the jobs that the purge may remove, and the removal of one (Store.Purge).
use agent_fox.Prelude.{
  ℕ, String, Bool, true, false, not, ◌&&◌, Option, none, some, if◌then◌else◌, ltb, ℕ_Eq, String_Eq,
  ◌||◌,
}
use agent_fox.Table.{exists_where, delete_where}
use agent_fox.Jobs.Model.{finished}
use agent_fox.Jobs.Rows.{Job, Attempt, Db, is_job, of_job, event_of, attempt_running}
use agent_fox.Jobs.Txn.{M, ok, err, constraint, file_error, pure, throw, ◌>>=◌, ◌>>◌, get_db}
use agent_fox.Jobs.Cleaning.{is_pending}

abbrev before_cutoff : ℕ → Option ℕ → Bool
before_cutoff cutoff none = false
before_cutoff cutoff (some t) = ltb t cutoff

-- The conditions of expiredCondition on the row of the job.
abbrev pub expired_row : ℕ → Job → Bool
expired_row cutoff j =
    finished j.state && (before_cutoff cutoff j.finished_at && not (is_pending j.cleanup))

abbrev pub is_running_of : String → Attempt → Bool
is_running_of id a = of_job id a && attempt_running a.state

-- expiredCondition: the job is finished, and was before the cutoff, its cancel cleanup is not
-- pending, and no attempt of it is running.
unfoldable pub expired : String → ℕ → Db → Bool
expired id cutoff db =
    exists_where (λ j. is_job id j && expired_row cutoff j) db.jobs
    && not (exists_where (is_running_of id) db.attempts)

-- DELETE FROM af_events, af_attempts and af_jobs. A row that another still refers to is not deleted
-- (the foreign keys), and the failure of a statement undoes the rest.
unfoldable pub delete_events : String → M (Unit {0})
delete_events id t =
    ok (tt, record t { db = record t.db { events = delete_where (event_of id) t.db.events } })

unfoldable pub delete_attempts : String → M (Unit {0})
delete_attempts id t =
    ok (tt, record t { db = record t.db { attempts = delete_where (of_job id) t.db.attempts } })

unfoldable pub delete_job : String → M (Unit {0})
delete_job id t =
    if exists_where (of_job id) t.db.attempts || exists_where (event_of id) t.db.events
    then err constraint
    else ok (tt, record t { db = record t.db { jobs = delete_where (is_job id) t.db.jobs } })

-- Store.Purge. `dir_removed` says that removeDir worked.
unfoldable pub purge : String → ℕ → Bool → M Bool
purge id cutoff dir_removed = do
  db ← get_db
  if expired id cutoff db
      then (do
        if dir_removed then pure tt else throw file_error
        delete_events id
        delete_attempts id
        delete_job id
        pure true)
      else pure false
