-- ===== src/Jobs/Invariant/Reachable.antt =====
-- The keys of the tables over any calls of the jobs layer (internal/service/jobs).
use agent_fox.Jobs.Rows.{reported}
use agent_fox.Jobs.Invariant.Transactions.{
  create_job-IsSound, requeue-IsSound, claim-IsSound, mark_in_runner-IsSound, set_hub-IsSound,
  note_transient-IsSound, backoff-IsSound, end_attempt-IsSound, cancel_job-IsSound,
  mark_cleanup-IsSound, abandon_cleanup-IsSound, end_cleanup-IsSound, purge-IsSound,
}
use agent_fox.Jobs.Hoare.{run-Keeps}
use agent_fox.Jobs.Invariant.Sound.{IsSound, empty-IsSound, emit-IsSound}
use agent_fox.Jobs.Txn.{World, Env}
use agent_fox.Prelude.{List, ◌∷◌, []}
use agent_fox.Jobs.Layer.{
  creates, step, run_calls, Call, new_world, answers, retries, claims, marks_in_runner, sets_hub,
  notes_transient, backs_off, finishes, settles, cancels, marks_cleanup, abandons_cleanup,
  ends_cleanup, purges, appends,
}

-- Every call of the layer, with any clock and any fault, keeps the keys of the tables.
pub step-IsSound : (w : World) (c : Env × Call) → IsSound w.db → IsSound (step w c).db
unfolding step
step-IsSound w (env, creates id in_) h = run-Keeps IsSound _ w (create_job-IsSound env id in_) h
step-IsSound w (env, answers id by answer) h = run-Keeps IsSound _ w (requeue-IsSound _ _ _ _ _ _) h
step-IsSound w (env, retries id by notes) h = run-Keeps IsSound _ w (requeue-IsSound _ _ _ _ _ _) h
step-IsSound w (env, claims id n) h = run-Keeps IsSound _ w (claim-IsSound env id n) h
step-IsSound w (env, marks_in_runner id n) h = run-Keeps IsSound _ w (mark_in_runner-IsSound id n) h
step-IsSound w (env, sets_hub id n session hub_run sandbox) h =
    run-Keeps IsSound _ w (set_hub-IsSound id n session hub_run sandbox) h
step-IsSound w (env, notes_transient id n) h = run-Keeps IsSound _ w (note_transient-IsSound id n) h
step-IsSound w (env, backs_off id n) h = run-Keeps IsSound _ w (backoff-IsSound env id n) h
step-IsSound w (env, finishes id n out spent) h =
    run-Keeps IsSound _ w (end_attempt-IsSound env _) h
step-IsSound w (env, settles id n envelope ok) h =
    run-Keeps IsSound _ w (end_attempt-IsSound env _) h
step-IsSound w (env, cancels id from cleanup cause) h =
    run-Keeps IsSound _ w (cancel_job-IsSound env id from cleanup cause) h
step-IsSound w (env, marks_cleanup id) h = run-Keeps IsSound _ w (mark_cleanup-IsSound id) h
step-IsSound w (env, abandons_cleanup id) h = run-Keeps IsSound _ w (abandon_cleanup-IsSound id) h
step-IsSound w (env, ends_cleanup id res) h = run-Keeps IsSound _ w (end_cleanup-IsSound id res) h
step-IsSound w (env, purges id cutoff removed) h =
    run-Keeps IsSound _ w (purge-IsSound id cutoff removed) h
step-IsSound w (env, appends id n typ text) h =
    run-Keeps IsSound _ w (emit-IsSound env id n (reported typ text)) h

calls-IsSound : (w : World) (cs : List (Env × Call)) → IsSound w.db → IsSound (run_calls w cs).db
unfolding run_calls
calls-IsSound w [] h = h
calls-IsSound w (c ∷ cs) h = calls-IsSound (step w c) cs (step-IsSound w c h)

-- After any calls of the layer on a new state file, in any order and with any faults of the store:
-- a job has one row; no two open jobs of a kind are for the same issue of a workspace; no attempt
-- and no event is without its job; and the events of each job are numbered 1, 2, … without a gap.
pub run_calls-IsSound : (cs : List (Env × Call)) → IsSound (run_calls new_world cs).db
run_calls-IsSound cs = calls-IsSound new_world cs empty-IsSound
