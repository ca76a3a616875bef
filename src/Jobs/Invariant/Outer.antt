-- ===== src/Jobs/Invariant/Outer.antt =====
-- What the making of a job, its cancel and its removal do to the attempts of the job.
use agent_fox.Jobs.Invariant.Deleting.{
  delete_attempts-IsSound, delete_events-IsSound, deleted_job-IsSound,
}
use agent_fox.Jobs.Retention.{
  is_running_of, delete_events, delete_attempts, delete_job, purge, expired,
}
use agent_fox.Table.Counting.{
  count_where-update_out, count_where-update_same, count_where-le, count_where-delete,
}
use agent_fox.Jobs.Invariant.Moves.{
  Moved, Counted, update_attempts-Counted, unmoved, moved, update_jobs-Moved, Counted-elim,
}
use agent_fox.Jobs.Invariant.Own.{Fits, insert_attempt-own, refusal-any, emit-own, fitting}
use agent_fox.Jobs.Cancel.{cancel_job, set_cancelled, owe_cleanup}
use agent_fox.Jobs.Store.{create_job, NewJob, new_job, refusal}
use agent_fox.Jobs.Invariant.Sound.{inserted_job-IsSound}
use agent_fox.Jobs.Statements.{insert_job-elim, delete_job-elim}
use agent_fox.Table.Lookup.{
  select_first-append, exists_where-select_first, both_left, select_first-delete,
}
use agent_fox.Table.{exists_where, select_first, count_where, delete_where}
use agent_fox.Jobs.Txn.{insert_job, Env, update_attempts, op_insert_job, pure, no_rows, file_error}
use agent_fox.Jobs.Hoare.{
  Triple, Triple-seam, Triple-bind, Triple-fact, Triple-weaken, Triple-if, Triple-pure, Triple-read,
  Triple-Keeps, Keeps-if, Keeps-pure, Triple-when, Keeps,
}
use agent_fox.Jobs.Rows.{Job, is_job, of_job, attempt_queued, Attempt, attempt_running}
use agent_fox.Jobs.Model.{State, Cause, AttemptState, state_eq}
use agent_fox.Prelude.{
  Option, ℕ, some, List, ◌≡◌, false, ◌++◌, ◌∷◌, [], arith, ==_refl, String_Eq, String, none, sym,
  ◌∙◌, true, Bool, subst, ◌&&◌, if◌then◌else◌, ◌==◌, refl, ℕ_Eq, ap,
}
use mathlib.Core.Option.{Option}
use agent_fox.Jobs.Invariant.View.{
  state_of, queued_count, running_count, Sees, fits, queued_of, Sees-at, update_jobs-Sees,
}
use mathlib.Core.Option

-- The state of a job that is not there, and of one that is the last row.
no_state :
    (id : String) (js : List Job)
    → exists_where (is_job id) js ≡ false
    → Option.map (λ i. i.state) (select_first (is_job id) js) ≡ none
no_state id js fresh = ground (arith, exists_where-select_first (is_job id) js)

last_state :
    (j : Job) (js : List Job)
    → exists_where (is_job j.id) js ≡ false
    → Option.map (λ i. i.state) (select_first (is_job j.id) (js ++ j ∷ [])) ≡ some j.state
last_state j js fresh = ground (
  arith,
  select_first-append (is_job j.id) js j,
  exists_where-select_first (is_job j.id) js,
  ==_refl j.id,
)

insert_job-own :
    {s : Option State} {q r : ℕ} (j : Job)
    → Triple
        (λ t. Sees j.id s q r t.db)
        (insert_job j)
        (λ u t. (s ≡ none) × Sees j.id (some j.state) q r t.db)
unfolding state_of queued_count running_count
insert_job-own {s = s} {q = q} {r = r} j = record {
  at = λ t h.
      insert_job-elim j t (λ db. (s ≡ none) × Sees j.id (some j.state) q r db)
        λ fresh holds. (
          sym h.looks.state ∙ no_state j.id t.db.jobs fresh,
          record {
            sound = inserted_job-IsSound j t.db h.sound fresh holds;
            looks = record {
              state = last_state j t.db.jobs fresh;
              queued = h.looks.queued;
              running = h.looks.running;
            };
          },
        );
}

absent_counts : {s : Option State} (q r : ℕ) → s ≡ none → fits s q r ≡ true → (q ≡ 0) × (r ≡ 0)
absent_counts q r e f =
    let f' : fits none q r ≡ true = subst (λ x. fits x q r ≡ true) e f in
    (ground arith, ground arith)

module _ (env : Env) (id : String) where
  pub create_job-own :
      {s : Option State} {q r : ℕ} (in_ : NewJob)
      → fits s q r ≡ true
      → Triple (λ t. Sees id s q r t.db) (create_job env id in_) (λ u t. Fits id t.db)
  unfolding create_job
  create_job-own {q = q} {r = r} in_ f = Triple-seam _ env op_insert_job (
      Triple-bind _ _ (insert_job-own (new_job env id in_)) λ u. Triple-fact λ absent.
        let z = absent_counts q r absent f in
        Triple-bind _ _
          (Triple-weaken (λ t h. Sees-at h z.0 z.1) (λ a t h. h)
            (insert_attempt-own env id _ _ _ _))
          λ u.
            Triple-bind _ _ (emit-own env id _ _)
              λ u. Triple-pure _ λ t h. fitting {s = some State.queued} refl h)

  -- The queued attempts of a job that is cancelled are closed, and the one that runs is not.
  cancel_queued :
      {s : Option State} {q r : ℕ} (now : ℕ)
      → Triple
          (λ t. Sees id s q r t.db)
          (update_attempts
            (λ a. of_job id a && attempt_queued a.state)
            (λ a. record a { state = AttemptState.cancelled; finished_at = some now }))
          (λ c t. Counted id s (λ p o. (p ≡ 0) × (o ≡ r)) t.db)
  cancel_queued now =
      update_attempts-Counted _ _ (λ a. refl) (λ c p o. _)
        (λ as_ eq er. (
          omega (
            arith,
            count_where-update_out (queued_of id) (λ a. of_job id a && attempt_queued a.state)
                (λ a. record a { state = AttemptState.cancelled; finished_at = some now }) as_
                (λ a e. ground (arith, e)),
          ),
          count_where-update_same (is_running_of id) (λ a. of_job id a && attempt_queued a.state)
                (λ a. record a { state = AttemptState.cancelled; finished_at = some now }) as_
                (λ a e. ground (arith, e))
              ∙ er,
        ))

  fits_cancelled :
      {s : Option State} {b : State} (q r : ℕ)
      → fits s q r ≡ true
      → s ≡ some b
      → fits (some State.cancelled) 0 r ≡ true
  fits_cancelled {b = b} q r f e =
      let f' : fits (some b) q r ≡ true = subst (λ x. fits x q r ≡ true) e f in ground arith

  pub cancel_job-own :
      {s : Option State} {q r : ℕ} (from : State) (cleanup : Bool) (cause : Cause)
      → fits s q r ≡ true
      → Triple
          (λ t. Sees id s q r t.db)
          (cancel_job env id from cleanup cause)
          (λ u t. Fits id t.db)
  unfolding cancel_job
  cancel_job-own {s = s} {q = q} {r = r} from cleanup cause f =
      Triple-bind _ _
        (update_jobs-Moved id (λ b. state_eq b from) State.cancelled (set_cancelled env.now cause)
          (λ j. refl) (λ j. refl))
        λ n. Triple-bind _ _ (found n) λ u. Triple-fact λ g. Triple-read _ λ db.
          Triple-bind _ _ (cancel_queued env.now) λ c. Counted-elim λ p o rel.
            Triple-bind _ _
              (Triple-Keeps (
                Keeps-if cleanup _ _
                  (update_jobs-Sees _ (owe_cleanup _) (λ j. refl) (λ j _ _. refl)) (Keeps-pure 0)))
              λ owed. Triple-read _ λ db. Triple-when _ _ no_rows λ there.
                Triple-bind _ _ (emit-own env id _ _) λ u.
                  Triple-pure _ λ t h. fitting {s = some State.cancelled} g (Sees-at h rel.0 rel.1)
    where
      found :
          (n : ℕ)
          → Triple
              (λ t. Moved id (λ b. state_eq b from) State.cancelled s q r n t.db)
              (if n == 0 then refusal id else pure tt)
              (λ u t.
                (fits (some State.cancelled) 0 r ≡ true) × Sees id (some State.cancelled) q r t.db)
      found n =
          Triple-if (n == 0) _ _ (λ z. refusal-any id)
            λ nz. Triple-pure tt λ t h. elim h [
              | unmoved z v ↦ absurd (ground (arith, nz, z))
              | moved l b e g v ↦ (fits_cancelled q r f e, v)
            ]

-- The removal of a job.
module _ (id : String) where
  delete_events-own : {s : Option State} {q r : ℕ} → Keeps (Sees id s q r) (delete_events id)
  unfolding delete_events state_of queued_count running_count
  delete_events-own = record {
    at = λ t h. record {
      sound = (delete_events-IsSound id).at t h.sound;
      looks = record { state = h.looks.state; queued = h.looks.queued; running = h.looks.running };
    };
  }

  open_deleted :
      (p : AttemptState → Bool) (as_ : List Attempt)
      → count_where (λ a. of_job id a && p a.state) (delete_where (of_job id) as_) ≡ 0
  open_deleted p as_ = omega (
    arith,
    count_where-le (λ a. of_job id a && p a.state) (of_job id) (delete_where (of_job id) as_)
        (λ a e. both_left (of_job id a) (p a.state) e),
    count_where-delete (of_job id) as_,
  )

  delete_attempts-own :
      {s : Option State} {q r : ℕ}
      → Triple (λ t. Sees id s q r t.db) (delete_attempts id) (λ u t. Sees id s 0 0 t.db)
  unfolding delete_attempts state_of queued_count running_count
  delete_attempts-own = record {
    at = λ t h. record {
      sound = (delete_attempts-IsSound id).at t h.sound;
      looks = record {
        state = h.looks.state;
        queued = open_deleted attempt_queued t.db.attempts;
        running = open_deleted attempt_running t.db.attempts;
      };
    };
  }

  delete_job-own :
      {s : Option State} {q r : ℕ}
      → Triple (λ t. Sees id s q r t.db) (delete_job id) (λ u t. Sees id none q r t.db)
  unfolding state_of queued_count running_count
  delete_job-own {q = q} {r = r} = record {
    at = λ t h. delete_job-elim id t (Sees id none q r) λ no_attempts no_events. record {
      sound = deleted_job-IsSound id t.db h.sound no_attempts no_events;
      looks = record {
        state = ap (λ o. Option.map (λ i. i.state) o) (select_first-delete (is_job id) t.db.jobs);
        queued = h.looks.queued;
        running = h.looks.running;
      };
    };
  }

  pub purge-own :
      {s : Option State} {q r : ℕ} (cutoff : ℕ) (dir_removed : Bool)
      → fits s q r ≡ true
      → Triple (λ t. Sees id s q r t.db) (purge id cutoff dir_removed) (λ u t. Fits id t.db)
  unfolding purge
  purge-own cutoff dir_removed f = Triple-read _ λ db.
      Triple-if (expired id cutoff db) _ _
        (λ gone. Triple-when _ dir_removed file_error λ removed.
          Triple-bind _ _ (Triple-Keeps delete_events-own) λ u.
            Triple-bind _ _ delete_attempts-own λ u.
              Triple-bind _ _ delete_job-own
                λ u. Triple-pure true λ t h. fitting {s = none} {q = 0} {r = 0} refl h)
        (λ stays. Triple-pure false λ t h. fitting f h)
