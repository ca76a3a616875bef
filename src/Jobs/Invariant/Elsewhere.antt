-- ===== src/Jobs/Invariant/Elsewhere.antt =====
-- What the transactions of internal/service/jobs/store.go do to the jobs they are not about.
use agent_fox.Jobs.Finish.{EndArgs, end_cancelled, end_open, end_attempt, unmarked, no_session}
use agent_fox.Jobs.Cancel.{cancel_job, set_cancelled, owe_cleanup}
use agent_fox.Jobs.Store.{
  claimable, running_attempt, create_job, insert_attempt, NewJob, transition, refusal, requeue,
  claim, backoff, state_in, set_state,
}
use agent_fox.Table.Lookup.{select_first-delete_apart, both_left, select_first-append}
use mathlib.Core.Bool.{false≢true}
use agent_fox.Table.{select_first}
use agent_fox.Jobs.Invariant.Sound.{inserted_attempt-IsSound, inserted_job-IsSound}
use agent_fox.Table.Counting.{count_where-delete_apart, count_where-append}
use agent_fox.Jobs.Statements.{insert_attempt_row-elim, delete_job-elim, insert_job-elim}
use agent_fox.Jobs.Invariant.Deleting.{
  delete_events-IsSound, delete_attempts-IsSound, deleted_job-IsSound,
}
use agent_fox.Jobs.Txn.{update_jobs, update_attempts, insert_attempt_row, insert_job, Env}
use agent_fox.Jobs.Hoare.{Keeps, keeps_rules, Keeps-bind, Keeps-pure, Keeps-if, Keeps-get_db}
use agent_fox.Jobs.Retention.{delete_events, delete_attempts, delete_job, is_running_of, purge}
use agent_fox.Jobs.Invariant.View.{
  state_of, queued_count, Sees, running_count, update_attempts-Sees, update_jobs-Sees, queued_of,
  emit-Sees,
}
use agent_fox.Jobs.Rows.{Job, Attempt, of_job, is_job, attempt_queued}
use agent_fox.Jobs.Model.{State, Trigger, Cause, Answer, NeedsHuman, state_eq, Cleanup}
use agent_fox.Prelude.{
  String, ◌==◌, ◌≡◌, false, true, Option, ==_iff, String_Eq, ℕ, Bool, List, ◌&&◌, arith, ◌++◌, ◌∙◌,
  ap, sym, ◌∷◌, [], is_some, refl, ℕ_Eq, some,
}
use mathlib.Core.Option

other_id : (id k i : String) → (id == k) ≡ false → (i == id) ≡ true → (i == k) ≡ false
other_id id k i apart e = rw ((==_iff i id).0 e) apart

module _ (id k : String) (apart : (id == k) ≡ false) {s : Option State} {q r : ℕ} where
  job_elsewhere :
      (c : Job → Bool) (f : Job → Job)
      → ((j : Job) → (f j).id ≡ j.id)
      → Keeps (Sees k s q r) (update_jobs (λ j. is_job id j && c j) f)
  job_elsewhere c f same = update_jobs-Sees _ f same λ j here hit.
      absurd
        (false≢true (sym (other_id id k j.id apart (both_left (is_job id j) (c j) hit)) ∙ here))

  own_elsewhere :
      (f : Job → Job)
      → ((j : Job) → (f j).id ≡ j.id)
      → Keeps (Sees k s q r) (update_jobs (is_job id) f)
  own_elsewhere f same =
      update_jobs-Sees _ f same
        λ j here hit. absurd (false≢true (sym (other_id id k j.id apart hit) ∙ here))

  attempts_elsewhere :
      (test : Attempt → Bool) (f : Attempt → Attempt)
      → ((a : Attempt) → (f a).job_id ≡ a.job_id)
      → ((a : Attempt) → test a ≡ true → of_job id a ≡ true)
      → Keeps (Sees k s q r) (update_attempts test f)
  attempts_elsewhere test f same mine =
      update_attempts-Sees test f same
        (λ a e. ground (arith, same a, other_id id k a.job_id apart (mine a e)))
        (λ a e. ground (arith, same a, other_id id k a.job_id apart (mine a e)))

  attempt_elsewhere : (a : Attempt) → a.job_id ≡ id → Keeps (Sees k s q r) (insert_attempt_row a)
  unfolding state_of queued_count running_count
  attempt_elsewhere a e = record {
    at = λ t h. insert_attempt_row-elim a t (Sees k s q r) λ there fresh. record {
      sound = inserted_attempt-IsSound a t.db h.sound there;
      looks = record {
        state = h.looks.state;
        queued =
            ground
              (arith, count_where-append (queued_of k) t.db.attempts a, h.looks.queued, elsewhere);
        running = ground (
          arith,
          count_where-append (is_running_of k) t.db.attempts a,
          h.looks.running,
          elsewhere,
        );
      };
    };
  }
    where
      elsewhere : (a.job_id == k) ≡ false
      elsewhere = other_id id k a.job_id apart ((==_iff a.job_id id).1 e)

  new_elsewhere : (j : Job) → j.id ≡ id → Keeps (Sees k s q r) (insert_job j)
  unfolding state_of queued_count running_count
  new_elsewhere j e = record {
    at = λ t h. insert_job-elim j t (Sees k s q r) λ fresh holds. record {
      sound = inserted_job-IsSound j t.db h.sound fresh holds;
      looks = record {
        state = other_row t.db.jobs ∙ h.looks.state;
        queued = h.looks.queued;
        running = h.looks.running;
      };
    };
  }
    where
      other_row :
          (js : List Job)
          → Option.map (λ i. i.state) (select_first (is_job k) (js ++ j ∷ []))
            ≡ Option.map (λ i. i.state) (select_first (is_job k) js)
      other_row js = ground (
        arith,
        select_first-append (is_job k) js j,
        other_id id k j.id apart ((==_iff j.id id).1 e),
      )

  events_elsewhere : Keeps (Sees k s q r) (delete_events id)
  unfolding delete_events state_of queued_count running_count
  events_elsewhere = record {
    at = λ t h. record {
      sound = (delete_events-IsSound id).at t h.sound;
      looks = record { state = h.looks.state; queued = h.looks.queued; running = h.looks.running };
    };
  }

  deleted_elsewhere : Keeps (Sees k s q r) (delete_attempts id)
  unfolding delete_attempts state_of queued_count running_count
  deleted_elsewhere = record {
    at = λ t h. record {
      sound = (delete_attempts-IsSound id).at t h.sound;
      looks = record {
        state = h.looks.state;
        queued =
            count_where-delete_apart (queued_of k) (of_job id) t.db.attempts
              (λ a e. ground (arith, other_id id k a.job_id apart e))
            ∙ h.looks.queued;
        running =
            count_where-delete_apart (is_running_of k) (of_job id) t.db.attempts
              (λ a e. ground (arith, other_id id k a.job_id apart e))
            ∙ h.looks.running;
      };
    };
  }

  job_deleted_elsewhere : Keeps (Sees k s q r) (delete_job id)
  unfolding state_of queued_count running_count
  job_deleted_elsewhere = record {
    at = λ t h. delete_job-elim id t (Sees k s q r) λ no_attempts no_events. record {
      sound = deleted_job-IsSound id t.db h.sound no_attempts no_events;
      looks = record {
        state =
            ap (λ o. Option.map (λ i. i.state) o)
              (select_first-delete_apart (is_job k) (is_job id) t.db.jobs
                (λ j e. other_id id k j.id apart e))
            ∙ h.looks.state;
        queued = h.looks.queued;
        running = h.looks.running;
      };
    };
  }

-- The conditions of the updates of attempts are of the one job.
module _ (id : String) where
  mine_claimable : (n : ℕ) (a : Attempt) → claimable id n a ≡ true → of_job id a ≡ true
  mine_claimable n a h = ground arith

  mine_running : (n : ℕ) (a : Attempt) → running_attempt id n a ≡ true → of_job id a ≡ true
  mine_running n a h = ground arith

  mine_queued : (a : Attempt) → (of_job id a && attempt_queued a.state) ≡ true → of_job id a ≡ true
  mine_queued a h = ground arith

ruleset elsewhere_rules = (
  keeps_rules, refl, emit-Sees, job_elsewhere, own_elsewhere, attempts_elsewhere, attempt_elsewhere,
  new_elsewhere, events_elsewhere, deleted_elsewhere, job_deleted_elsewhere, mine_claimable,
  mine_running, mine_queued,
)

-- The transactions of store.go on one job, and what is seen of another.
module _ (env : Env) (id k : String) (apart : (id == k) ≡ false) {s : Option State} {q r : ℕ} where
  pub create_job-elsewhere : (in_ : NewJob) → Keeps (Sees k s q r) (create_job env id in_)
  unfolding create_job insert_attempt
  create_job-elsewhere in_ = search elsewhere_rules depth 20

  transition-elsewhere :
      (from : List State) (to : State) → Keeps (Sees k s q r) (transition env id from to)
  unfolding transition
  transition-elsewhere from to =
      Keeps-bind _ _
        (job_elsewhere id k apart (λ j. state_in j.state from) (set_state env.now to) (λ j. refl))
        (λ n. Keeps-pure _)

  refusal-elsewhere : {A : Type 0} → Keeps (Sees k s q r) (refusal {A = A} id)
  unfolding refusal
  refusal-elsewhere = search elsewhere_rules depth 20

  pub requeue-elsewhere :
      (from : State) (trigger : Trigger) (answer : Option Answer) (notes : List String)
      → Keeps (Sees k s q r) (requeue env id from trigger answer notes)
  unfolding requeue insert_attempt
  requeue-elsewhere from trigger answer notes =
      search (elsewhere_rules, transition-elsewhere, refusal-elsewhere) depth 20

  pub claim-elsewhere : (n : ℕ) → Keeps (Sees k s q r) (claim env id n)
  unfolding claim
  claim-elsewhere n = search (elsewhere_rules, transition-elsewhere) depth 20

  pub backoff-elsewhere : (n : ℕ) → Keeps (Sees k s q r) (backoff env id n)
  unfolding backoff
  backoff-elsewhere n = search (elsewhere_rules, transition-elsewhere, refusal-elsewhere) depth 20

  cancel_row-elsewhere :
      (from : State) (cause : Cause)
      → Keeps
          (Sees k s q r)
          (update_jobs (λ j. is_job id j && state_eq j.state from) (set_cancelled env.now cause))
  cancel_row-elsewhere from cause =
      job_elsewhere id k apart (λ j. state_eq j.state from) _ (λ j. refl)

  owed-elsewhere :
      (now : Bool)
      → Keeps (Sees k s q r) (update_jobs (λ j. is_job id j && is_some j.issue) (owe_cleanup now))
  owed-elsewhere now = job_elsewhere id k apart (λ j. is_some j.issue) _ (λ j. refl)

  pub cancel_job-elsewhere :
      (from : State) (cleanup : Bool) (cause : Cause)
      → Keeps (Sees k s q r) (cancel_job env id from cleanup cause)
  unfolding cancel_job
  cancel_job-elsewhere from cleanup cause = Keeps-bind _ _ (cancel_row-elsewhere from cause) λ n.
      Keeps-bind _ _ (Keeps-if (n == 0) _ _ refusal-elsewhere (Keeps-pure tt)) λ u.
        Keeps-bind _ _ Keeps-get_db λ db.
          Keeps-bind _ _ (attempts_elsewhere id k apart _ _ (λ a. refl) (mine_queued id)) λ c.
            Keeps-bind _ _ (Keeps-if cleanup _ _ (owed-elsewhere _) (Keeps-pure 0))
              λ owed. search (keeps_rules, emit-Sees) depth 10

  pub purge-elsewhere :
      (cutoff : ℕ) (removed : Bool) → Keeps (Sees k s q r) (purge id cutoff removed)
  unfolding purge
  purge-elsewhere cutoff removed = search elsewhere_rules depth 20

module _ (env : Env) (k : String) (a : EndArgs) (apart : (a.id == k) ≡ false) {s : Option State}
    {q r : ℕ} where
  unmarked-elsewhere :
      (as_ : List Attempt)
      → Keeps (Sees k s q r) (
          update_jobs
            (λ j. is_job a.id j && (unmarked j && no_session a.id a.attempt as_))
            (λ j. record j { cleanup = some Cleanup.pending }))
  unmarked-elsewhere as_ =
      job_elsewhere a.id k apart (λ j. unmarked j && no_session a.id a.attempt as_) _ (λ j. refl)

  end_cancelled-elsewhere :
      (label : Option String) → Keeps (Sees k s q r) (end_cancelled env a label)
  unfolding end_cancelled
  end_cancelled-elsewhere label =
      search (keeps_rules, apart, emit-Sees, own_elsewhere, unmarked-elsewhere) depth 20

  end_open-elsewhere : (asks : Option NeedsHuman) → Keeps (Sees k s q r) (end_open env a asks)
  unfolding end_open
  end_open-elsewhere asks =
      search (elsewhere_rules, requeue-elsewhere, transition-elsewhere, refusal-elsewhere) depth 20

  pub end_attempt-elsewhere : Keeps (Sees k s q r) (end_attempt env a)
  unfolding end_attempt
  end_attempt-elsewhere =
      search (elsewhere_rules, end_cancelled-elsewhere, end_open-elsewhere) depth 20
