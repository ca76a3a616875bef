-- ===== src/Jobs/Invariant/Numbered.antt =====
-- The numbers of the attempts of a job, over any calls of the jobs layer.
use agent_fox.Jobs.Invariant.Reachable.{step-IsSound}
use agent_fox.Table.Numbering.{NumberedFrom}
use agent_fox.Jobs.Layer.{
  step, run_calls, Call, creates, new_world, answers, retries, claims, marks_in_runner, sets_hub,
  notes_transient, backs_off, finishes, settles, cancels, marks_cleanup, abandons_cleanup,
  ends_cleanup, purges, appends,
}
use agent_fox.Jobs.Rows.{of_job, reported}
use agent_fox.Table.{max_where}
use agent_fox.Jobs.Invariant.Sound.{IsSound, empty-IsSound}
use agent_fox.Jobs.Model.{State, Trigger, Answer, NeedsHuman, Cause}
use agent_fox.Prelude.{String, List, ℕ, Option, Bool, ◌∷◌, [], ap, ◌+◌, ◌∙◌}
use agent_fox.Jobs.Txn.{Env, op_insert_job, World, begin_tx}
use agent_fox.Jobs.Invariant.Numbers.{
  update_jobs-HasNumbers, update_attempts-HasNumbers, emit-HasNumbers, HasNumbers,
  delete_events-HasNumbers, delete_attempts-HasNumbers, delete_job-HasNumbers, insert_job-fresh,
  insert_attempt-next, next_number,
}
use agent_fox.Jobs.Retention.{purge}
use agent_fox.Jobs.Cleaning.{mark_cleanup, abandon_cleanup, end_cleanup, CleanupResult}
use agent_fox.Jobs.Cancel.{cancel_job}
use agent_fox.Jobs.Finish.{end_cancelled, end_open, end_attempt, EndArgs}
use agent_fox.Jobs.Store.{
  transition, refusal, requeue, claim, backoff, note_transient, mark_in_runner, set_hub, create_job,
  NewJob, new_job,
}
use agent_fox.Jobs.Hoare.{
  keeps_rules, Keeps, Triple, Keeps-bind, Triple-seam, Triple-bind, Keeps-if, Keeps-Triple,
  Triple-get_db, Triple-weaken, Triple-Keeps, Triple-pure, run_elim, Post-ok, run-Keeps,
}

ruleset number_rules = (
  keeps_rules, refl, update_jobs-HasNumbers, update_attempts-HasNumbers, emit-HasNumbers,
  delete_events-HasNumbers, delete_attempts-HasNumbers, delete_job-HasNumbers,
)

transition-HasNumbers :
    (env : Env) (id : String) (from : List State) (to : State)
    → Keeps HasNumbers (transition env id from to)
unfolding transition
transition-HasNumbers env id from to = search number_rules depth 12

refusal-HasNumbers : {A : Type 0} (id : String) → Keeps HasNumbers (refusal {A = A} id)
unfolding refusal
refusal-HasNumbers id = search number_rules depth 12

ruleset moving = (number_rules, transition-HasNumbers, refusal-HasNumbers)

requeue-HasNumbers :
    (env : Env) (id : String) (from : State) (trigger : Trigger) (answer : Option Answer)
    (notes : List String)
    → Keeps HasNumbers (requeue env id from trigger answer notes)
unfolding requeue
requeue-HasNumbers env id from trigger answer notes =
    Keeps-bind _ _ (transition-HasNumbers env id (from ∷ []) State.queued) λ changed.
      Keeps-if changed _ _
        (Keeps-Triple (
          Triple-bind _ _ Triple-get_db λ db.
            Triple-bind _ _
              (Triple-weaken
                (λ t h. (
                  h.1,
                  ap (λ d. max_where (of_job id) (λ a. a.n) d.attempts + 1) h.0
                      ∙ next_number id t.db h.1,
                ))
                (λ a t h. h) (insert_attempt-next env id _ trigger answer notes))
              λ u.
                Triple-bind _ _ (Triple-Keeps (emit-HasNumbers env id _ _))
                  λ u. Triple-pure _ λ t h. h))
        (refusal-HasNumbers id)

claim-HasNumbers : (env : Env) (id : String) (n : ℕ) → Keeps HasNumbers (claim env id n)
unfolding claim
claim-HasNumbers env id n = search moving depth 20

backoff-HasNumbers : (env : Env) (id : String) (n : ℕ) → Keeps HasNumbers (backoff env id n)
unfolding backoff
backoff-HasNumbers env id n = search moving depth 20

note_transient-HasNumbers : (id : String) (n : ℕ) → Keeps HasNumbers (note_transient id n)
unfolding note_transient
note_transient-HasNumbers id n = search moving depth 20

mark_in_runner-HasNumbers : (id : String) (n : ℕ) → Keeps HasNumbers (mark_in_runner id n)
unfolding mark_in_runner
mark_in_runner-HasNumbers id n = search moving depth 20

set_hub-HasNumbers :
    (id : String) (n : ℕ) (session hub_run sandbox : String)
    → Keeps HasNumbers (set_hub id n session hub_run sandbox)
unfolding set_hub
set_hub-HasNumbers id n session hub_run sandbox = search moving depth 20

end_cancelled-HasNumbers :
    (env : Env) (a : EndArgs) (label : Option String) → Keeps HasNumbers (end_cancelled env a label)
unfolding end_cancelled
end_cancelled-HasNumbers env a label = search moving depth 20

end_open-HasNumbers :
    (env : Env) (a : EndArgs) (asks : Option NeedsHuman) → Keeps HasNumbers (end_open env a asks)
unfolding end_open
end_open-HasNumbers env a asks = search (moving, requeue-HasNumbers) depth 20

end_attempt-HasNumbers : (env : Env) (a : EndArgs) → Keeps HasNumbers (end_attempt env a)
unfolding end_attempt
end_attempt-HasNumbers env a =
    search (moving, end_cancelled-HasNumbers, end_open-HasNumbers) depth 20

cancel_job-HasNumbers :
    (env : Env) (id : String) (from : State) (cleanup : Bool) (cause : Cause)
    → Keeps HasNumbers (cancel_job env id from cleanup cause)
unfolding cancel_job
cancel_job-HasNumbers env id from cleanup cause = search moving depth 20

mark_cleanup-HasNumbers : (id : String) → Keeps HasNumbers (mark_cleanup id)
unfolding mark_cleanup
mark_cleanup-HasNumbers id = search moving depth 20

abandon_cleanup-HasNumbers : (id : String) → Keeps HasNumbers (abandon_cleanup id)
unfolding abandon_cleanup
abandon_cleanup-HasNumbers id = search moving depth 20

end_cleanup-HasNumbers : (id : String) (res : CleanupResult) → Keeps HasNumbers (end_cleanup id res)
unfolding end_cleanup
end_cleanup-HasNumbers id res = search moving depth 20

purge-HasNumbers :
    (id : String) (cutoff : ℕ) (removed : Bool) → Keeps HasNumbers (purge id cutoff removed)
unfolding purge
purge-HasNumbers id cutoff removed = search moving depth 20

-- A new job begins with attempt 1, and it has no other.
create_job-HasNumbers :
    (env : Env) (id : String) (in_ : NewJob)
    → Triple (λ t. IsSound t.db × HasNumbers t.db) (create_job env id in_) (λ a t. HasNumbers t.db)
unfolding create_job
create_job-HasNumbers env id in_ = Triple-seam _ env op_insert_job (
    Triple-bind _ _ (insert_job-fresh (new_job env id in_)) λ u.
      Triple-bind _ _ (insert_attempt-next env id 1 _ _ _) λ u.
        Triple-bind _ _ (Triple-Keeps (emit-HasNumbers env id _ _)) λ u. Triple-pure _ λ t h. h)

step-HasNumbers :
    (w : World) (c : Env × Call) → IsSound w.db → HasNumbers w.db → HasNumbers (step w c).db
unfolding step
step-HasNumbers w (env, creates id in_) s h =
    run_elim (λ r. HasNumbers r.1.db) w _ (λ e. h)
      (λ a t e.
        Post-ok (λ b u. HasNumbers u.db) a t
          ((create_job-HasNumbers env id in_).at (begin_tx w.db) (s, h)) e)
step-HasNumbers w (env, answers id by answer) s h =
    run-Keeps HasNumbers _ w (requeue-HasNumbers env id State.blocked _ _ _) h
step-HasNumbers w (env, retries id by notes) s h =
    run-Keeps HasNumbers _ w (requeue-HasNumbers env id State.failed _ _ _) h
step-HasNumbers w (env, claims id n) s h = run-Keeps HasNumbers _ w (claim-HasNumbers env id n) h
step-HasNumbers w (env, marks_in_runner id n) s h =
    run-Keeps HasNumbers _ w (mark_in_runner-HasNumbers id n) h
step-HasNumbers w (env, sets_hub id n session hub_run sandbox) s h =
    run-Keeps HasNumbers _ w (set_hub-HasNumbers id n session hub_run sandbox) h
step-HasNumbers w (env, notes_transient id n) s h =
    run-Keeps HasNumbers _ w (note_transient-HasNumbers id n) h
step-HasNumbers w (env, backs_off id n) s h =
    run-Keeps HasNumbers _ w (backoff-HasNumbers env id n) h
step-HasNumbers w (env, finishes id n out spent) s h =
    run-Keeps HasNumbers _ w (end_attempt-HasNumbers env _) h
step-HasNumbers w (env, settles id n envelope ok_) s h =
    run-Keeps HasNumbers _ w (end_attempt-HasNumbers env _) h
step-HasNumbers w (env, cancels id from cleanup cause) s h =
    run-Keeps HasNumbers _ w (cancel_job-HasNumbers env id from cleanup cause) h
step-HasNumbers w (env, marks_cleanup id) s h =
    run-Keeps HasNumbers _ w (mark_cleanup-HasNumbers id) h
step-HasNumbers w (env, abandons_cleanup id) s h =
    run-Keeps HasNumbers _ w (abandon_cleanup-HasNumbers id) h
step-HasNumbers w (env, ends_cleanup id res) s h =
    run-Keeps HasNumbers _ w (end_cleanup-HasNumbers id res) h
step-HasNumbers w (env, purges id cutoff removed) s h =
    run-Keeps HasNumbers _ w (purge-HasNumbers id cutoff removed) h
step-HasNumbers w (env, appends id n typ text) s h =
    run-Keeps HasNumbers _ w (emit-HasNumbers env id n (reported typ text)) h

calls-HasNumbers :
    (w : World) (cs : List (Env × Call))
    → IsSound w.db
    → HasNumbers w.db
    → HasNumbers (run_calls w cs).db
unfolding run_calls
calls-HasNumbers w [] s h = h
calls-HasNumbers w (c ∷ cs) s h =
    calls-HasNumbers (step w c) cs (step-IsSound w c s) (step-HasNumbers w c s h)

-- After any calls of the layer on a new state file, in any order and with any faults of the store,
-- the attempts of each job are numbered 1, 2, … without a gap, in the order in which they stand in
-- the file.
pub run_calls_numbered :
    (cs : List (Env × Call)) (id : String)
    → NumberedFrom (of_job id) (λ a. a.n) 0 (run_calls new_world cs).db.attempts
run_calls_numbered cs id =
    (calls-HasNumbers new_world cs empty-IsSound (record { at = λ k. tt })).at id
