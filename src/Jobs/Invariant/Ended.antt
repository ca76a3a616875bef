-- ===== src/Jobs/Invariant/Ended.antt =====
-- What the end of an attempt (finish.go) does to the attempts of its job.
use mathlib.Core.Bool.{◌&&◌}
use mathlib.Core.Option
use agent_fox.Jobs.Invariant.Own.{
  ended_queued, ended_running, Fits, fits_running, requeue-own, fitting, refusal-any, emit-own,
}
use agent_fox.Jobs.Invariant.Moves.{
  Counted, update_attempts-Counted, transition-Turned, Turned-if, Counted-elim,
}
use agent_fox.Table.{select_first}
use agent_fox.Jobs.Store.{running_attempt, state_in}
use agent_fox.Jobs.Hoare.{
  Triple, Triple-Keeps, Triple-bind, Triple-get_db, Triple-take, Keeps, keeps_rules, Triple-if,
  Triple-pure, Triple-read, Triple-when, Keeps-if, Keeps-pure,
}
use agent_fox.Jobs.Finish.{EndArgs, set_end, end_cancelled, end_open, end_attempt}
use agent_fox.Jobs.Invariant.View.{state_of, fits, Sees, update_jobs-Sees, emit-Sees, Sees-at}
use agent_fox.Prelude.{
  String, ◌≡◌, Option, false, ℕ, some, arith, Bool, true, ◌+◌, ◌∙◌, sym, ap, refl, ◌==◌, ◌∷◌, [],
  ℕ_Eq, if◌then◌else◌, subst, is_empty,
}
use agent_fox.Jobs.Rows.{attempt_open, job_active, attempt_queued, attempt_running, Job, is_job}
use agent_fox.Jobs.Txn.{Env, Tx, Error, M, get_db, update_attempts, ◌>>=◌, of_option, file_error}
use agent_fox.Jobs.Model.{State, AttemptState, NeedsHuman, state_eq}
use agent_fox.Jobs.Ruling.{Verdict}

-- A ruling that closes the attempt, and the job too unless the attempt is tried again.
pub record IsSettled (v : Verdict) : Type 0 where
  pub attempt : attempt_open v.attempt ≡ false
  pub job : v.auto ≡ false → job_active v.job ≡ false

settled_job : (s : State) → job_active s ≡ false → fits (some s) 0 0 ≡ true
settled_job s h = ground arith

not_queued : (a : AttemptState) → attempt_open a ≡ false → attempt_queued a ≡ false
not_queued a h = ground arith

not_running : (a : AttemptState) → attempt_open a ≡ false → attempt_running a ≡ false
not_running a h = ground arith

module _ (env : Env) (id : String) where
  -- The row of the job that a transaction reads has the state that is seen.
  read_job :
      {B : Type 0} {s : Option State} {q r : ℕ} {R : B → Tx → Type 0} (e : Error) (f : Job → M B)
      → ((j : Job) → s ≡ some j.state → Triple (λ t. Sees id s q r t.db) (f j) R)
      → Triple
          (λ t. Sees id s q r t.db)
          (get_db >>= λ db. of_option e (select_first (is_job id) db.jobs) >>= f)
          R
  unfolding state_of
  read_job e f h = Triple-bind _ _ Triple-get_db λ db. Triple-take e _ f λ j g. record {
    at = λ t p.
        (h j (
            sym p.1.looks.state
            ∙ ap (λ d. Option.map (λ i. i.state) (select_first (is_job id) d.jobs)) (sym p.0)
            ∙ ap (λ o. Option.map (λ i. i.state) o) g)).at
          t p.1;
  }

  -- Store.EndAttempt, of the attempt that runs.
  end_first :
      {s : Option State} {q r : ℕ} (now n : ℕ) (state : AttemptState) (a : EndArgs)
      (asks : Option NeedsHuman)
      → attempt_open state ≡ false
      → Triple
          (λ t. Sees id s q r t.db)
          (update_attempts (running_attempt id n) (set_end now state a asks))
          (λ c t. Counted id s (λ p o. (p ≡ q) × (o + c ≡ r)) t.db)
  end_first now n state a asks closed =
      update_attempts-Counted _ _ (λ a. refl) (λ c p o. _)
        (λ as_ eq er. (
          ended_queued id n _ (λ a. refl) (λ a. not_queued state closed) as_ ∙ eq,
          ended_running id n _ (λ a. refl) (λ a. not_running state closed) as_ ∙ er,
        ))

  -- The cancel of a job recorded with its attempt leaves the states.
  end_cancelled-own :
      {s : Option State} {q r : ℕ} (a : EndArgs) (label : Option String)
      → Keeps (Sees id s q r) (end_cancelled env a label)
  unfolding end_cancelled
  end_cancelled-own a label = search (keeps_rules, emit-Sees, update_jobs-Sees) depth 20

  -- The end of an attempt of a job that was not cancelled.
  end_open-own :
      {s : Option State} {q r p o : ℕ} (c : ℕ) (a : EndArgs) (asks : Option NeedsHuman)
      → a.id ≡ id
      → IsSettled a.verdict
      → fits s q r ≡ true
      → (c == 0) ≡ false
      → (p ≡ q) × (o + c ≡ r)
      → Triple (λ t. Sees id s p o t.db) (end_open env a asks) (λ e t. Fits id t.db)
  unfolding end_open
  end_open-own {s = s} {p = p} {o = o} c a asks same v f nz rel = rw same (
      Triple-if a.verdict.auto _ _
        (λ _.
          Triple-bind _ _ (requeue-own env id State.running _ _ _ closed)
            λ n. Triple-pure _ λ t h. fitting {s = some State.queued} refl h)
        (λ rests. Triple-bind _ _ (transition-Turned env id _ a.verdict.job) λ changed.
          Triple-bind _ _
            (Turned-if _ _
              (λ b e g. let z = none_left b e g in Triple-pure tt λ t h. Sees-at h z.0 z.1)
              (refusal-any id) changed)
            λ u.
              Triple-bind _ _ (emit-own env id {s = some a.verdict.job} {q = 0} {r = 0} _ _)
                λ u. Triple-pure _ λ t h. fitting (settled_job _ (v.job rests)) h))
    where
      none_left :
          (b : State) → s ≡ some b → state_in b (State.running ∷ []) ≡ true → (p ≡ 0) × (o ≡ 0)
      none_left b e g =
          let one = fits_running env id {b = b} f e g in
          (
            ground (arith, nz, one.0, one.1, rel.0, rel.1),
            ground (arith, nz, one.0, one.1, rel.0, rel.1),
          )

      closed : s ≡ some State.running → (p ≡ 0) × (o ≡ 0)
      closed e = none_left State.running e refl

still_fits :
    (b : State) {s : Option State} {q r p : ℕ} (c o : ℕ)
    → state_eq b State.cancelled ≡ true
    → s ≡ some b
    → fits s q r ≡ true
    → (p ≡ q) × (o + c ≡ r)
    → fits s p o ≡ true
still_fits b {q = q} {r = r} c o gone e f rel =
    let f' : fits (some b) q r ≡ true = subst (λ x. fits x q r ≡ true) e f in
    rw e (ground (arith, f', gone, rel.0, rel.1))

-- Store.EndAttempt, with what a ruling came to.
pub end_attempt-own :
    (env : Env) (a : EndArgs) {s : Option State} {q r : ℕ}
    → IsSettled a.verdict
    → fits s q r ≡ true
    → Triple (λ t. Sees a.id s q r t.db) (end_attempt env a) (λ e t. Fits a.id t.db)
unfolding end_attempt
end_attempt-own env a {s} {q} {r} v f = Triple-take _ _ _ λ asks e. Triple-read _ λ db.
    Triple-bind _ _ (end_first env a.id env.now a.attempt _ a asks (closed _)) λ c.
      Counted-elim λ p o rel.
        Triple-if (c == 0) _ _
          (λ z. Triple-pure _ λ t h. fitting f (Sees-at h (rel.0) (ground (arith, z, rel.1))))
          (λ nz. Triple-when _ a.files_ok file_error λ ok_.
            Triple-bind _ _
              (Triple-Keeps (
                Keeps-if (is_empty a.labels_set && is_empty a.labels_removed) _ _ (Keeps-pure 0)
                  (update_jobs-Sees _ _ (λ j. refl) (λ j _ _. refl))))
              λ u. read_job env a.id _ _ λ j seen. Triple-bind _ _ (emit-own env a.id _ _) λ u.
                Triple-if (state_eq j.state State.cancelled) _ _
                  (λ gone.
                    Triple-bind _ _ (Triple-Keeps (end_cancelled-own env a.id a _))
                      λ b. Triple-pure _ λ t h. fitting (still_fits j.state c o gone seen f rel) h)
                  (λ open_. end_open-own env a.id c a asks refl v f nz rel))
  where
    closed :
        (b : Bool) → attempt_open (if b then AttemptState.cancelled else a.verdict.attempt) ≡ false
    closed b = ground (arith, v.attempt)
