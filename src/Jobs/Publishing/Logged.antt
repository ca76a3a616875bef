-- ===== src/Jobs/Publishing/Logged.antt =====
-- The events over every call of the jobs layer (internal/service/jobs).
use mathlib.Core.Bool.{false≢true}
use agent_fox.Jobs.Rows.{reported}
use agent_fox.Table.{exists_where}
use agent_fox.Jobs.Hoare.{run_elim, Post-ok}
use agent_fox.Jobs.Model.{State, Trigger, NeedsHuman, Cause, Answer}
use agent_fox.Jobs.Layer.{
  Call, purges, step, run_calls, creates, new_world, answers, retries, claims, marks_in_runner,
  sets_hub, notes_transient, backs_off, finishes, settles, cancels, marks_cleanup, abandons_cleanup,
  ends_cleanup, appends,
}
use agent_fox.Prelude.{
  String, List, ℕ, Option, Bool, ◌≡◌, true, false, ◌++◌, ◌∙◌, sym, append_nil, ◌∷◌, arith, refl, [],
}
use agent_fox.Jobs.Txn.{M, Env, World, run, begin_tx}
use agent_fox.Jobs.Cleaning.{mark_cleanup, abandon_cleanup, end_cleanup, CleanupResult}
use agent_fox.Jobs.Cancel.{cancel_job}
use agent_fox.Jobs.Finish.{end_cancelled, end_open, end_attempt, EndArgs}
use agent_fox.Jobs.Store.{
  create_job, transition, refusal, requeue, claim, backoff, note_transient, mark_in_runner, set_hub,
  insert_attempt, NewJob,
}
use agent_fox.Jobs.Publishing.{
  Logs-pure, Logs-throw, String, Logs-of_option, List, Logs, ℕ, Option, Bool, Logs-get_db,
  Logs-fails, true, Logs-if, false, Logs-bind, Logs-update_jobs, Logs-insert_job,
  Logs-update_attempts, Logs-insert_attempt_row, Logs-emit, ◌∷◌, arith,
}

ruleset log_rules = (
  Logs-pure, Logs-throw, Logs-of_option, Logs-get_db, Logs-fails, Logs-if, Logs-bind,
  Logs-update_jobs, Logs-insert_job, Logs-update_attempts, Logs-insert_attempt_row, Logs-emit,
)

Logs-create_job : (env : Env) (id : String) (in_ : NewJob) → Logs (create_job env id in_)
unfolding create_job insert_attempt
Logs-create_job env id in_ = search log_rules depth 20

Logs-transition :
    (env : Env) (id : String) (from : List State) (to : State) → Logs (transition env id from to)
unfolding transition
Logs-transition env id from to = search log_rules depth 20

Logs-refusal : {A : Type 0} (id : String) → Logs (refusal {A = A} id)
unfolding refusal
Logs-refusal id = search log_rules depth 20

ruleset moving = (log_rules, Logs-transition, Logs-refusal)

Logs-requeue :
    (env : Env) (id : String) (from : State) (trigger : Trigger) (answer : Option Answer)
    (notes : List String)
    → Logs (requeue env id from trigger answer notes)
unfolding requeue insert_attempt
Logs-requeue env id from trigger answer notes = search moving depth 20

Logs-claim : (env : Env) (id : String) (n : ℕ) → Logs (claim env id n)
unfolding claim
Logs-claim env id n = search moving depth 20

Logs-backoff : (env : Env) (id : String) (n : ℕ) → Logs (backoff env id n)
unfolding backoff
Logs-backoff env id n = search moving depth 20

Logs-note_transient : (id : String) (n : ℕ) → Logs (note_transient id n)
unfolding note_transient
Logs-note_transient id n = search moving depth 20

Logs-mark_in_runner : (id : String) (n : ℕ) → Logs (mark_in_runner id n)
unfolding mark_in_runner
Logs-mark_in_runner id n = search moving depth 20

Logs-set_hub :
    (id : String) (n : ℕ) (session hub_run sandbox : String)
    → Logs (set_hub id n session hub_run sandbox)
unfolding set_hub
Logs-set_hub id n session hub_run sandbox = search moving depth 20

Logs-end_cancelled :
    (env : Env) (a : EndArgs) (label : Option String) → Logs (end_cancelled env a label)
unfolding end_cancelled
Logs-end_cancelled env a label = search moving depth 20

Logs-end_open : (env : Env) (a : EndArgs) (asks : Option NeedsHuman) → Logs (end_open env a asks)
unfolding end_open
Logs-end_open env a asks = search (moving, Logs-requeue) depth 20

Logs-end_attempt : (env : Env) (a : EndArgs) → Logs (end_attempt env a)
unfolding end_attempt
Logs-end_attempt env a = search (moving, Logs-end_cancelled, Logs-end_open) depth 20

Logs-cancel_job :
    (env : Env) (id : String) (from : State) (cleanup : Bool) (cause : Cause)
    → Logs (cancel_job env id from cleanup cause)
unfolding cancel_job
Logs-cancel_job env id from cleanup cause = search moving depth 20

Logs-mark_cleanup : (id : String) → Logs (mark_cleanup id)
unfolding mark_cleanup
Logs-mark_cleanup id = search moving depth 20

Logs-abandon_cleanup : (id : String) → Logs (abandon_cleanup id)
unfolding abandon_cleanup
Logs-abandon_cleanup id = search moving depth 20

Logs-end_cleanup : (id : String) (res : CleanupResult) → Logs (end_cleanup id res)
unfolding end_cleanup
Logs-end_cleanup id res = search moving depth 20

-- What is published after a transaction is what was published before and what it stored.
run-Logs :
    {A : Type 0} (m : M A) (w : World)
    → Logs m
    → w.db.events ≡ w.published
    → (run m w).1.db.events ≡ (run m w).1.published
run-Logs m w l h =
    run_elim (λ r. r.1.db.events ≡ r.1.published) w m (λ e. h)
      (λ a t e.
        Post-ok (λ a u. u.db.events ≡ w.published ++ u.stored) a t
          (l.at w.published (begin_tx w.db) (h ∙ sym (append_nil w.published))) e)

-- Whether a call removes a job.
unfoldable pub removes : Env × Call → Bool
removes (env, purges id cutoff removed) = true
removes (env, c) = false

step-Logs :
    (w : World) (c : Env × Call)
    → removes c ≡ false
    → w.db.events ≡ w.published
    → (step w c).db.events ≡ (step w c).published
unfolding step removes
step-Logs w (env, creates id in_) k h = run-Logs _ w (Logs-create_job env id in_) h
step-Logs w (env, answers id by answer) k h =
    run-Logs _ w (Logs-requeue env id State.blocked _ _ _) h
step-Logs w (env, retries id by notes) k h = run-Logs _ w (Logs-requeue env id State.failed _ _ _) h
step-Logs w (env, claims id n) k h = run-Logs _ w (Logs-claim env id n) h
step-Logs w (env, marks_in_runner id n) k h = run-Logs _ w (Logs-mark_in_runner id n) h
step-Logs w (env, sets_hub id n session hub_run sandbox) k h =
    run-Logs _ w (Logs-set_hub id n session hub_run sandbox) h
step-Logs w (env, notes_transient id n) k h = run-Logs _ w (Logs-note_transient id n) h
step-Logs w (env, backs_off id n) k h = run-Logs _ w (Logs-backoff env id n) h
step-Logs w (env, finishes id n out spent) k h = run-Logs _ w (Logs-end_attempt env _) h
step-Logs w (env, settles id n envelope ok_) k h = run-Logs _ w (Logs-end_attempt env _) h
step-Logs w (env, cancels id from cleanup cause) k h =
    run-Logs _ w (Logs-cancel_job env id from cleanup cause) h
step-Logs w (env, marks_cleanup id) k h = run-Logs _ w (Logs-mark_cleanup id) h
step-Logs w (env, abandons_cleanup id) k h = run-Logs _ w (Logs-abandon_cleanup id) h
step-Logs w (env, ends_cleanup id res) k h = run-Logs _ w (Logs-end_cleanup id res) h
step-Logs w (env, purges id cutoff removed) k h = absurd (false≢true (sym k))
step-Logs w (env, appends id n typ text) k h =
    run-Logs _ w (Logs-emit env id n (reported typ text)) h

run_calls-Logs :
    (w : World) (cs : List (Env × Call))
    → exists_where removes cs ≡ false
    → w.db.events ≡ w.published
    → (run_calls w cs).db.events ≡ (run_calls w cs).published
unfolding run_calls exists_where
run_calls-Logs w [] k h = h
run_calls-Logs w (c ∷ cs) k h =
    run_calls-Logs (step w c) cs (ground arith) (step-Logs w c (ground arith) h)

-- After any calls of the layer on a new state file that remove no job, in any order and with any
-- faults of the store, the events that were handed to the publisher are the events that the file
-- holds, in the same order: none is published that was not committed, and none is missed.
pub run_calls_published :
    (cs : List (Env × Call))
    → exists_where removes cs ≡ false
    → (run_calls new_world cs).db.events ≡ (run_calls new_world cs).published
run_calls_published cs k = run_calls-Logs new_world cs k refl
