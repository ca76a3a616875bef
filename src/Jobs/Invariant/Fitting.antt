-- ===== src/Jobs/Invariant/Fitting.antt =====
-- The open attempts of each job over any calls of the jobs layer (internal/service/jobs).
use agent_fox.Jobs.Invariant.Elsewhere.{
  create_job-elsewhere, backoff-elsewhere, cancel_job-elsewhere, purge-elsewhere,
  end_attempt-elsewhere, claim-elsewhere, requeue-elsewhere,
}
use agent_fox.Jobs.Invariant.Own.{backoff-own, fitting, claim-own, requeue-own, Fits}
use agent_fox.Jobs.Invariant.Outer.{create_job-own, cancel_job-own, purge-own}
use agent_fox.Jobs.Invariant.View.{
  fits, emit-Sees, update_attempts-Sees, update_jobs-Sees, state_of, queued_count, running_count,
}
use agent_fox.Jobs.Retention.{purge}
use agent_fox.Jobs.Cancel.{cancel_job}
use agent_fox.Jobs.Invariant.Counts.{
  AllFit, Keeps-neutral, Keeps-AllFit, blocked_none, failed_none, finished-IsSettled,
  cancelled-IsSettled, empty-AllFit,
}
use agent_fox.Jobs.Invariant.Ended.{IsSettled, end_attempt-own}
use agent_fox.Jobs.Rows.{EventData, reported, Db}
use agent_fox.Jobs.Hoare.{Keeps, Keeps-bind, keeps_rules, run-Keeps, Triple-weaken}
use agent_fox.Jobs.Cleaning.{mark_cleanup, abandon_cleanup, end_cleanup, CleanupResult}
use agent_fox.Jobs.Finish.{EndArgs, end_attempt}
use agent_fox.Jobs.Model.{State, Trigger, Cause, Answer}
use agent_fox.Jobs.Store.{
  NewJob, mark_in_runner, set_hub, note_transient, create_job, claim, backoff, requeue,
}
use agent_fox.Jobs.Layer.{
  step, run_calls, Call, creates, answers, retries, claims, marks_in_runner, sets_hub,
  notes_transient, backs_off, finishes, settles, cancels, marks_cleanup, abandons_cleanup,
  ends_cleanup, purges, appends, new_world,
}
use agent_fox.Prelude.{String, ℕ, Bool, List, Option, ◌∷◌, [], ◌≡◌, refl, true, some}
use agent_fox.Jobs.Txn.{Env, World, emit}

module _ (env : Env) (id : String) where
  create_job-AllFit : (in_ : NewJob) → Keeps AllFit (create_job env id in_)
  create_job-AllFit in_ =
      Keeps-AllFit id _ (λ s q r f. create_job-own env id in_ f)
        (λ k apart s q r. create_job-elsewhere env id k apart in_)

  -- An answer and a retry.
  requeue-AllFit :
      (from : State) (trigger : Trigger) (answer : Option Answer) (notes : List String)
      → ((s : Option State) (q r : ℕ) → fits s q r ≡ true → s ≡ some from → (q ≡ 0) × (r ≡ 0))
      → Keeps AllFit (requeue env id from trigger answer notes)
  requeue-AllFit from trigger answer notes none_open =
      Keeps-AllFit id _
        (λ s q r f.
          Triple-weaken (λ t h. h) (λ n t h. fitting {s = some State.queued} refl h)
            (requeue-own env id from trigger answer notes (none_open s q r f)))
        (λ k apart s q r. requeue-elsewhere env id k apart from trigger answer notes)

  claim-AllFit : (n : ℕ) → Keeps AllFit (claim env id n)
  claim-AllFit n =
      Keeps-AllFit id _
        (λ s q r f.
          Triple-weaken (λ t h. h) (λ n t h. fitting {s = some State.running} refl h)
            (claim-own env id n f))
        (λ k apart s q r. claim-elsewhere env id k apart n)

  backoff-AllFit : (n : ℕ) → Keeps AllFit (backoff env id n)
  backoff-AllFit n =
      Keeps-AllFit id _ (λ s q r f. backoff-own env id n f)
        (λ k apart s q r. backoff-elsewhere env id k apart n)

  cancel_job-AllFit :
      (from : State) (cleanup : Bool) (cause : Cause)
      → Keeps AllFit (cancel_job env id from cleanup cause)
  cancel_job-AllFit from cleanup cause =
      Keeps-AllFit id _ (λ s q r f. cancel_job-own env id from cleanup cause f)
        (λ k apart s q r. cancel_job-elsewhere env id k apart from cleanup cause)

  purge-AllFit : (cutoff : ℕ) (removed : Bool) → Keeps AllFit (purge id cutoff removed)
  purge-AllFit cutoff removed =
      Keeps-AllFit id _ (λ s q r f. purge-own id cutoff removed f)
        (λ k apart s q r. purge-elsewhere env id k apart cutoff removed)

  emit-AllFit : (n : ℕ) (body : EventData) → Keeps AllFit (emit env id n body)
  emit-AllFit n body = Keeps-neutral id _ (λ k s q r. emit-Sees env id n body)

end_attempt-AllFit :
    (env : Env) (a : EndArgs) → IsSettled a.verdict → Keeps AllFit (end_attempt env a)
end_attempt-AllFit env a v =
    Keeps-AllFit a.id _ (λ s q r f. end_attempt-own env a v f)
      (λ k apart s q r. end_attempt-elsewhere env k a apart)

-- The statements that leave the states.
module _ (id : String) where
  mark_in_runner-AllFit : (n : ℕ) → Keeps AllFit (mark_in_runner id n)
  unfolding mark_in_runner
  mark_in_runner-AllFit n =
      Keeps-neutral id _ λ k s q r. update_attempts-Sees _ _ (λ a. refl) (λ a _. refl) (λ a _. refl)

  set_hub-AllFit :
      (n : ℕ) (session hub_run sandbox : String)
      → Keeps AllFit (set_hub id n session hub_run sandbox)
  unfolding set_hub
  set_hub-AllFit n session hub_run sandbox =
      Keeps-neutral id _ λ k s q r. update_attempts-Sees _ _ (λ a. refl) (λ a _. refl) (λ a _. refl)

  note_transient-AllFit : (n : ℕ) → Keeps AllFit (note_transient id n)
  unfolding note_transient
  note_transient-AllFit n = Keeps-neutral id _ λ k s q r.
      Keeps-bind _ _ (update_attempts-Sees _ _ (λ a. refl) (λ a _. refl) (λ a _. refl))
        λ n. search keeps_rules depth 10

  mark_cleanup-AllFit : Keeps AllFit (mark_cleanup id)
  unfolding mark_cleanup
  mark_cleanup-AllFit =
      Keeps-neutral id _ λ k s q r. search (keeps_rules, update_jobs-Sees) depth 10

  abandon_cleanup-AllFit : Keeps AllFit (abandon_cleanup id)
  unfolding abandon_cleanup
  abandon_cleanup-AllFit =
      Keeps-neutral id _ λ k s q r. search (keeps_rules, update_jobs-Sees) depth 10

  end_cleanup-AllFit : (res : CleanupResult) → Keeps AllFit (end_cleanup id res)
  unfolding end_cleanup
  end_cleanup-AllFit res =
      Keeps-neutral id _ λ k s q r. search (keeps_rules, update_jobs-Sees) depth 20

-- Every call of the layer, with any clock and any fault.
step-AllFit : (w : World) (c : Env × Call) → AllFit w.db → AllFit (step w c).db
unfolding step
step-AllFit w (env, creates id in_) h = run-Keeps AllFit _ w (create_job-AllFit env id in_) h
step-AllFit w (env, answers id by answer) h =
    run-Keeps AllFit _ w
      (requeue-AllFit env id State.blocked _ _ _ (λ s q r f e. blocked_none q r f e)) h
step-AllFit w (env, retries id by notes) h =
    run-Keeps AllFit _ w
      (requeue-AllFit env id State.failed _ _ _ (λ s q r f e. failed_none q r f e)) h
step-AllFit w (env, claims id n) h = run-Keeps AllFit _ w (claim-AllFit env id n) h
step-AllFit w (env, marks_in_runner id n) h = run-Keeps AllFit _ w (mark_in_runner-AllFit id n) h
step-AllFit w (env, sets_hub id n session hub_run sandbox) h =
    run-Keeps AllFit _ w (set_hub-AllFit id n session hub_run sandbox) h
step-AllFit w (env, notes_transient id n) h = run-Keeps AllFit _ w (note_transient-AllFit id n) h
step-AllFit w (env, backs_off id n) h = run-Keeps AllFit _ w (backoff-AllFit env id n) h
step-AllFit w (env, finishes id n out spent) h =
    run-Keeps AllFit _ w (end_attempt-AllFit env _ (finished-IsSettled w.db id n out spent)) h
step-AllFit w (env, settles id n envelope ok_) h =
    run-Keeps AllFit _ w (end_attempt-AllFit env _ (cancelled-IsSettled id n envelope ok_)) h
step-AllFit w (env, cancels id from cleanup cause) h =
    run-Keeps AllFit _ w (cancel_job-AllFit env id from cleanup cause) h
step-AllFit w (env, marks_cleanup id) h = run-Keeps AllFit _ w (mark_cleanup-AllFit id) h
step-AllFit w (env, abandons_cleanup id) h = run-Keeps AllFit _ w (abandon_cleanup-AllFit id) h
step-AllFit w (env, ends_cleanup id res) h = run-Keeps AllFit _ w (end_cleanup-AllFit id res) h
step-AllFit w (env, purges id cutoff removed) h =
    run-Keeps AllFit _ w (purge-AllFit env id cutoff removed) h
step-AllFit w (env, appends id n typ text) h =
    run-Keeps AllFit _ w (emit-AllFit env id n (reported typ text)) h

run_calls-AllFit : (w : World) (cs : List (Env × Call)) → AllFit w.db → AllFit (run_calls w cs).db
unfolding run_calls
run_calls-AllFit w [] h = h
run_calls-AllFit w (c ∷ cs) h = run_calls-AllFit (step w c) cs (step-AllFit w c h)

Fits-holds :
    {id : String} {db : Db}
    → Fits id db
    → fits (state_of id db) (queued_count id db) (running_count id db) ≡ true
Fits-holds (fitting f v) = rw (v.looks.state, v.looks.queued, v.looks.running) f

-- After any calls of the layer on a new state file, in any order and with any faults of the store:
-- a queued job has one queued attempt and none that runs, a running job has one that runs and none
-- that is queued, a cancelled job has at most one that runs and none that is queued, and any other
-- job, and an id without a job, has neither.
pub run_calls_fit :
    (cs : List (Env × Call)) (id : String)
    → fits
        (state_of id (run_calls new_world cs).db)
        (queued_count id (run_calls new_world cs).db)
        (running_count id (run_calls new_world cs).db)
      ≡ true
run_calls_fit cs id = Fits-holds ((run_calls-AllFit new_world cs empty-AllFit).at id)
