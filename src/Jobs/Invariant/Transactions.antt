-- ===== src/Jobs/Invariant/Transactions.antt =====
-- The keys of the tables over each transaction of internal/service/jobs/store.go.
use agent_fox.Jobs.Retention.{purge}
use agent_fox.Jobs.Cleaning.{abandon_cleanup, mark_cleanup, end_cleanup, CleanupResult}
use agent_fox.Jobs.Cancel.{cancel_job}
use agent_fox.Jobs.Finish.{end_cancelled, end_open, end_attempt, EndArgs}
use agent_fox.Jobs.Model.{State, Trigger, Answer, Cause, NeedsHuman}
use agent_fox.Jobs.Txn.{Env}
use agent_fox.Jobs.Store.{
  transition, refusal, insert_attempt, create_job, requeue, NewJob, claim, backoff, note_transient,
  mark_in_runner, set_hub,
}
use agent_fox.Jobs.Hoare.{Keeps, keeps_rules}
use agent_fox.Jobs.Invariant.Sound.{
  IsSound, update_jobs-IsSound, update_attempts-IsSound, insert_attempt_row-IsSound,
  insert_job-IsSound, emit-IsSound,
}
use agent_fox.Jobs.Invariant.Deleting.{
  delete_events-IsSound, delete_attempts-IsSound, delete_job-IsSound,
}
use agent_fox.Prelude.{String, refl, ℕ, List, Option, Bool}

ruleset statements = (
  keeps_rules, update_attempts-IsSound, insert_attempt_row-IsSound, insert_job-IsSound,
  emit-IsSound, delete_events-IsSound, delete_attempts-IsSound, delete_job-IsSound, refl,
  update_jobs-IsSound,
)

pub transition-IsSound :
    (env : Env) (id : String) (from : List State) (to : State)
    → Keeps IsSound (transition env id from to)
unfolding transition
transition-IsSound env id from to = search statements

pub refusal-IsSound : {A : Type 0} (id : String) → Keeps IsSound (refusal {A = A} id)
unfolding refusal
refusal-IsSound id = search statements

pub insert_attempt-IsSound :
    (env : Env) (id : String) (n : ℕ) (trigger : Trigger) (answer : Option Answer)
    (notes : List String)
    → Keeps IsSound (insert_attempt env id n trigger answer notes)
unfolding insert_attempt
insert_attempt-IsSound env id n trigger answer notes = search statements

ruleset parts = (statements, transition-IsSound, refusal-IsSound, insert_attempt-IsSound)

pub create_job-IsSound :
    (env : Env) (id : String) (in_ : NewJob) → Keeps IsSound (create_job env id in_)
unfolding create_job
create_job-IsSound env id in_ = search parts depth 12

pub requeue-IsSound :
    (env : Env) (id : String) (from : State) (trigger : Trigger) (answer : Option Answer)
    (notes : List String)
    → Keeps IsSound (requeue env id from trigger answer notes)
unfolding requeue
requeue-IsSound env id from trigger answer notes = search parts depth 12

pub claim-IsSound : (env : Env) (id : String) (n : ℕ) → Keeps IsSound (claim env id n)
unfolding claim
claim-IsSound env id n = search parts depth 20

ruleset more = (parts, requeue-IsSound)

pub backoff-IsSound : (env : Env) (id : String) (n : ℕ) → Keeps IsSound (backoff env id n)
unfolding backoff
backoff-IsSound env id n = search parts depth 20

pub note_transient-IsSound : (id : String) (n : ℕ) → Keeps IsSound (note_transient id n)
unfolding note_transient
note_transient-IsSound id n = search parts depth 20

pub mark_in_runner-IsSound : (id : String) (n : ℕ) → Keeps IsSound (mark_in_runner id n)
unfolding mark_in_runner
mark_in_runner-IsSound id n = search parts

pub set_hub-IsSound :
    (id : String) (n : ℕ) (session run sandbox : String)
    → Keeps IsSound (set_hub id n session run sandbox)
unfolding set_hub
set_hub-IsSound id n session run sandbox = search parts

end_cancelled-IsSound :
    (env : Env) (a : EndArgs) (label : Option String) → Keeps IsSound (end_cancelled env a label)
unfolding end_cancelled
end_cancelled-IsSound env a label = search parts depth 20

end_open-IsSound :
    (env : Env) (a : EndArgs) (asks : Option NeedsHuman) → Keeps IsSound (end_open env a asks)
unfolding end_open
end_open-IsSound env a asks = search more depth 20

pub end_attempt-IsSound : (env : Env) (a : EndArgs) → Keeps IsSound (end_attempt env a)
unfolding end_attempt
end_attempt-IsSound env a = search (more, end_cancelled-IsSound, end_open-IsSound) depth 20

pub cancel_job-IsSound :
    (env : Env) (id : String) (from : State) (cleanup : Bool) (cause : Cause)
    → Keeps IsSound (cancel_job env id from cleanup cause)
unfolding cancel_job
cancel_job-IsSound env id from cleanup cause = search parts depth 20

pub abandon_cleanup-IsSound : (id : String) → Keeps IsSound (abandon_cleanup id)
unfolding abandon_cleanup
abandon_cleanup-IsSound id = search parts

pub mark_cleanup-IsSound : (id : String) → Keeps IsSound (mark_cleanup id)
unfolding mark_cleanup
mark_cleanup-IsSound id = search parts

pub end_cleanup-IsSound : (id : String) (res : CleanupResult) → Keeps IsSound (end_cleanup id res)
unfolding end_cleanup
end_cleanup-IsSound id res = search parts depth 20

pub purge-IsSound :
    (id : String) (cutoff : ℕ) (dir_removed : Bool) → Keeps IsSound (purge id cutoff dir_removed)
unfolding purge
purge-IsSound id cutoff dir_removed = search parts depth 20
