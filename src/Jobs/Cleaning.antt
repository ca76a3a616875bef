-- ===== src/Jobs/Cleaning.antt =====
-- cleanup.go: the state of the cancel cleanup that is kept with a job (AbandonCleanup,
-- CleanupPending, MarkCleanup, CleanupRequest, EndCleanup).
use agent_fox.Prelude.{
  ℕ, String, Bool, true, false, not, ◌&&◌, ◌||◌, Option, none, some, List, [], ◌∷◌, ◌++◌,
  if◌then◌else◌, ◌==◌, coalesce, is_empty, ℕ_Eq, String_Eq,
}
use agent_fox.Table.{select_first, select_where, exists_where}
use agent_fox.Jobs.Model.{State, state_eq, open_state, Cleanup}
use agent_fox.Jobs.Rows.{Job, is_job}
use agent_fox.Jobs.Txn.{M, no_rows, pure, ◌>>=◌, ◌>>◌, get_db, of_option, update_jobs}

abbrev pub is_pending : Option Cleanup → Bool
is_pending (some Cleanup.pending) = true
is_pending _ = false

abbrev pub pending_of : String → Job → Bool
pending_of id j = is_job id j && is_pending j.cleanup

-- Store.AbandonCleanup
unfoldable pub abandon_cleanup : String → M Bool
abandon_cleanup id = do
  n ← update_jobs (pending_of id) (λ j. record j { cleanup = some Cleanup.label_not_set })
  pure (if n == 0 then false else true)

-- Store.CleanupPending
unfoldable pub cleanup_pending : String → M Bool
cleanup_pending id = do db ← get_db; pure (exists_where (pending_of id) db.jobs)

abbrev none_marked : Option Cleanup → Bool
none_marked none = true
none_marked (some c) = false

-- Store.MarkCleanup
unfoldable pub mark_cleanup : String → M Bool
mark_cleanup id = do
  n ←
      update_jobs
        (λ j.
          is_job id j
          && (state_eq j.state State.cancelled && (j.cleanup_wanted && none_marked j.cleanup)))
        (λ j. record j { cleanup = some Cleanup.pending })
  pure (if n == 0 then false else true)

-- CleanupRequest: what a try is about.
pub record Request : Type 0 where
  pub workspace : String
  pub id : String
  pub issue : ℕ
  pub request_label : String
  pub labels_set : List String
  pub others_set : List String
  pub other_running : Bool

labels_of : List Job → List String
labels_of [] = []
labels_of (j ∷ js) = coalesce j.labels_set [] ++ labels_of js

any_running : List Job → Bool
any_running [] = false
any_running (j ∷ js) = state_eq j.state State.running || any_running js

abbrev same_number : ℕ → Option ℕ → Bool
same_number n none = false
same_number n (some m) = m == n

-- The other open jobs of the issue of a job.
abbrev pub other_of : Job → ℕ → Job → Bool
other_of j issue o =
    o.workspace == j.workspace
    && (same_number issue o.issue && (not (o.id == j.id) && open_state o.state))

-- Store.CleanupRequest: none for a cleanup that is not pending, or a job without an issue.
unfoldable pub cleanup_request : String → M (Option Request)
unfolding labels_of any_running
cleanup_request id = do
  db ← get_db
  pure (elim (select_first (is_job id) db.jobs) [
    | none ↦ none
    | some j ↦ elim j.issue [
      | none ↦ none
      | some issue ↦
          let others = select_where (other_of j issue) db.jobs in
          if is_pending j.cleanup
          then some (record {
            workspace = j.workspace;
            id = id;
            issue = issue;
            request_label = coalesce j.request_label "";
            labels_set = coalesce j.labels_set [];
            others_set = labels_of others;
            other_running = any_running others;
          })
          else none
    ]
  ])

-- CleanupResult: what a try came to.
pub record CleanupResult : Type 0 where
  pub outcome : Cleanup
  pub set : List String
  pub removed : List String
  pub request_label_on : Bool

abbrev pub still_pending : Cleanup → Bool
still_pending Cleanup.pending = true
still_pending _ = false

-- Store.EndCleanup: whether the result was recorded, and whether this was the first failure.
unfoldable pub end_cleanup : String → CleanupResult → M (Bool × Bool)
end_cleanup id res = do
  n ← update_jobs (pending_of id) (λ j. j)
  if n == 0 then pure (false, false) else (do
    db ← get_db
    before ← of_option no_rows (select_first (is_job id) db.jobs)
    if not (still_pending res.outcome) && not (is_empty res.set && is_empty res.removed)
        then update_jobs (is_job id)
            (λ j. record j { labels_set = some res.set; labels_removed = some res.removed })
        else pure 0
    if res.request_label_on
        then update_jobs (is_job id) (λ j. record j { labels_restore = none })
        else pure 0
    if still_pending res.outcome
        then (do
          update_jobs (is_job id) (λ j. record j { cleanup_warned = true })
          pure (true, not before.cleanup_warned))
        else (do
          update_jobs (is_job id) (λ j. record j { cleanup = some res.outcome })
          pure (true, false)))
