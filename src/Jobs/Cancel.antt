-- ===== src/Jobs/Cancel.antt =====
-- cancel.go: the cancel of a job (Store.CancelJob, Store.OpenJobIDs).
use Prim.Native.Char.{code}
use agent_fox.Prelude.{
  ℕ, String, Bool, true, false, ◌&&◌, none, some, List, [], ◌∷◌, map, if◌then◌else◌, ◌==◌, is_some,
  ℕ_Eq, String_Eq, ◌++◌, or_else, ltb, ◌||◌,
}
use agent_fox.Table.{exists_where, select_where, max_where, order_by}
use agent_fox.Jobs.Model.{State, state_eq, open_state, AttemptState, Cleanup, Cause}
use agent_fox.Jobs.Rows.{Job, Attempt, job_state, is_job, of_job, attempt_open, attempt_queued}
use agent_fox.Jobs.Txn.{
  throw, no_rows, Env, M, pure, ◌>>=◌, ◌>>◌, get_db, update_jobs, update_attempts, emit,
}
use agent_fox.Jobs.Store.{refusal}

-- cancelled: what a cancel found of the attempts of a job. `running` is 0 for none.
pub record Cancelled : Type 0 where
  pub running : ℕ
  pub queued : List ℕ
  pub cleanup : Bool

-- The loop over the open attempts of the job, in the order of their numbers.
unfoldable pub found_of : List Attempt → ℕ → List ℕ → ℕ × List ℕ
found_of [] running queued = (running, queued)
found_of (a ∷ rest) running queued =
    let is_queued = attempt_queued a.state in
    found_of rest (if is_queued then running else a.n)
      (if is_queued then queued ++ a.n ∷ [] else queued)

-- labels_restore = COALESCE(request_label, labels_restore)
abbrev pub set_cancelled : ℕ → Cause → Job → Job
set_cancelled now cause j = record j {
  state = State.cancelled;
  finished_at = some now;
  cancel_cause = some cause;
  labels_restore = or_else j.request_label j.labels_restore;
}

abbrev pub owe_cleanup : Bool → Job → Job
owe_cleanup now j = record j {
  cleanup_wanted = true;
  cleanup = if now then some Cleanup.pending else j.cleanup;
}

-- The attempts of a job are stored in the order of their numbers, which is ORDER BY n.
unfoldable pub cancel_job : Env → String → State → Bool → Cause → M Cancelled
cancel_job env id from cleanup cause = do
  n ← update_jobs (λ j. is_job id j && state_eq j.state from) (set_cancelled env.now cause)
  if n == 0 then refusal id else pure tt
  db ← get_db
  let found = found_of (select_where (λ a. of_job id a && attempt_open a.state) db.attempts) 0 []
  update_attempts (λ a. of_job id a && attempt_queued a.state)
      (λ a. record a { state = AttemptState.cancelled; finished_at = some env.now })
  owed ←
      (if cleanup
        then update_jobs (λ j. is_job id j && is_some j.issue) (owe_cleanup (found.0 == 0))
        else pure 0)
  db ← get_db
  if exists_where (of_job id) db.attempts then pure tt else throw no_rows
  let current = max_where (of_job id) (λ a. a.n) db.attempts
  emit env id current (
      job_state (record {
        state = State.cancelled;
        attempt = current;
        at_rest = found.0 == 0;
        blocked = none;
        result = none;
      }))
  pure (record {
    running = found.0;
    queued = found.1;
    cleanup = (if owed == 0 then false else true) && found.0 == 0;
  })

-- The order of two texts, by their characters, which is that of their bytes.
unfoldable pub text_before : String → String → Bool
text_before s String.[] = false
text_before String.[] (String.◌∷◌ d t) = true
text_before (String.◌∷◌ c s) (String.◌∷◌ d t) =
    let later = text_before s t in ltb (code c) (code d) || (code c == code d && later)

-- Store.OpenJobIDs: ORDER BY created_at, id.
abbrev created_before : Job → Job → Bool
created_before i j =
    ltb i.created_at j.created_at || (i.created_at == j.created_at && text_before i.id j.id)

unfoldable pub open_job_ids : String → M (List String)
open_job_ids workspace = do
  db ← get_db
  pure (
      map (λ j. j.id)
        (order_by created_before
          (select_where (λ j. j.workspace == workspace && open_state j.state) db.jobs)))
