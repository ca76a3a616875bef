-- ===== src/Jobs/Sweeping.antt =====
-- The attempts that the sweep of internal/service/jobs/sweep.go queues again.
use agent_fox.Jobs.Invariant.Fitting.{run_calls_fit}
use agent_fox.Jobs.Layer.{Call, run_calls, new_world}
use agent_fox.Jobs.Txn.{Env}
use agent_fox.Jobs.Invariant.View.{state_of, fits, queued_count, queued_of, running_count}
use agent_fox.Jobs.Rows.{Job, Attempt, is_job, job_active}
use agent_fox.Jobs.Model.{State}
use agent_fox.Jobs.Dispatch.{queued_attempts, swept, owner_active}
use agent_fox.Table.{count_where, select_where, select_first}
use agent_fox.Prelude.{
  none, false, String, Option, ℕ, Bool, List, some, ◌==◌, ◌≡◌, String_Eq, map, true, if◌then◌else◌,
  ◌∙◌, arith, ◌∷◌, Bool-cases, inr, inl, ap, ==_iff, [], refl,
}
use mathlib.Core.Option.{Option}
use mathlib.Core.Option

-- The entries of a job among the attempts that the sweep queues again.
abbrev pub entry_of : String → String × ℕ → Bool
entry_of id e = e.0 == id

swept_rows :
    (id : String) (jobs : List Job) (as_ : List Attempt)
    → count_where (entry_of id) (map (λ a. (a.job_id, a.n)) (select_where (swept jobs) as_))
      ≡ (if owner_active jobs id then count_where (queued_of id) as_ else 0)
unfolding count_where select_where
swept_rows id jobs [] = ground arith
swept_rows id jobs (a ∷ as_) = elim (Bool-cases (a.job_id == id)) [
  | inr other ↦ ground (arith, other, swept_rows id jobs as_)
  | inl mine ↦
      let own : owner_active jobs a.job_id ≡ owner_active jobs id =
        ap (owner_active jobs) ((==_iff a.job_id id).0 mine) in
      ground (arith, mine, own, swept_rows id jobs as_)
]

-- How many entries a job in a state has.
abbrev pub waiting : Option State → ℕ
waiting (some State.queued) = 1
waiting _ = 0

waiting_entries :
    (o : Option Job) (q r : ℕ)
    → fits (Option.map (λ j. j.state) o) q r ≡ true
    → (if (elim o [ none ↦ false | some j ↦ job_active j.state ]) then q else 0)
      ≡ waiting (Option.map (λ j. j.state) o)
waiting_entries none q r f = refl
waiting_entries (some j) q r f = ground (arith, f)

-- After any calls of the layer on a new state file, in any order and with any faults of the store,
-- the attempts that the sweep queues again are one of each job that is queued, and none of any other
-- job.
pub run_calls_swept :
    (cs : List (Env × Call)) (id : String)
    → count_where (entry_of id) (queued_attempts (run_calls new_world cs).db)
      ≡ waiting (state_of id (run_calls new_world cs).db)
unfolding queued_attempts state_of queued_count
run_calls_swept cs id =
    let db = (run_calls new_world cs).db in
    swept_rows id db.jobs db.attempts
    ∙ waiting_entries (select_first (is_job id) db.jobs) (queued_count id db) (running_count id db)
        (run_calls_fit cs id)
