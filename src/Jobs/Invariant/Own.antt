-- ===== src/Jobs/Invariant/Own.antt =====
-- What the transactions of store.go do to the attempts of the job that they are about.
use agent_fox.Jobs.Invariant.Moves.{
  transition-Turned, Turned-if, state_in-one, Counted, Counted-elim, update_attempts-Counted,
}
use agent_fox.Jobs.Statements.{insert_attempt_row-elim}
use agent_fox.Jobs.Invariant.Sound.{inserted_attempt-IsSound}
use agent_fox.Jobs.Hoare.{
  Triple, Triple-bind, Triple-get_db, Triple-of_option, Triple-throw, Triple-Keeps, Triple-fails,
  Triple-weaken, Triple-pure, Triple-unless, Triple-seam, Triple-read, Triple-take, Triple-if,
}
use agent_fox.Jobs.Model.{State, Trigger, Answer, state_eq, AttemptState}
use agent_fox.Jobs.Txn.{
  insert_attempt_row, Tx, Env, emit, op_insert_attempt, pure, update_attempts, not_claimable,
  op_claim,
}
use agent_fox.Table.Counting.{
  count_where-update_out, count_where-update_same, count_where-update_into, count_where-append,
}
use agent_fox.Jobs.Retention.{is_running_of}
use agent_fox.Jobs.Store.{
  claimable, hand_over, running_attempt, refusal, insert_attempt, requeue, state_in, claim,
  moved_to, backoff,
}
use agent_fox.Jobs.Invariant.View.{
  queued_of, state_of, queued_count, fits, running_count, Sees, emit-Sees, Sees-at,
}
use agent_fox.Jobs.Rows.{Attempt, attempt_running, attempt_queued, Db, EventData, job_state}
use agent_fox.Prelude.{
  String, ℕ, List, ◌≡◌, false, true, ◌+◌, ◌≤◌, arith, ◌∷◌, [], refl, Option, ==_refl, String_Eq,
  some, ◌∙◌, ap, ◌==◌, subst, ℕ_Eq,
}
use agent_fox.Table.{count_where, update_where}

-- Claim: of the open attempts of the job, those handed over run.
handed :
    (id : String) (n now : ℕ) (as_ : List Attempt)
    → (count_where (queued_of id) (update_where (claimable id n) (hand_over now) as_)
          + count_where (is_running_of id) (update_where (claimable id n) (hand_over now) as_)
        ≡ count_where (queued_of id) as_ + count_where (is_running_of id) as_)
      × (count_where (claimable id n) as_
          ≤ count_where (is_running_of id) (update_where (claimable id n) (hand_over now) as_))
unfolding count_where update_where
handed id n now [] = (refl, omega arith)
handed id n now (x ∷ as_) = ground (arith, handed id n now as_)

-- An attempt that runs leaves its state for one that is not open.
module _ (id : String) (n : ℕ) (f : Attempt → Attempt)
    (own : (a : Attempt) → (f a).job_id ≡ a.job_id) where
  pub ended_running :
      ((a : Attempt) → attempt_running (f a).state ≡ false)
      → (as_ : List Attempt)
      → count_where (is_running_of id) (update_where (running_attempt id n) f as_)
          + count_where (running_attempt id n) as_
        ≡ count_where (is_running_of id) as_
  ended_running h as_ =
      count_where-update_out (is_running_of id) (running_attempt id n) f as_
        λ a e. ground (arith, h a, own a)

  pub ended_queued :
      ((a : Attempt) → attempt_queued (f a).state ≡ false)
      → (as_ : List Attempt)
      → count_where (queued_of id) (update_where (running_attempt id n) f as_)
        ≡ count_where (queued_of id) as_
  ended_queued h as_ =
      count_where-update_same (queued_of id) (running_attempt id n) f as_
        λ a e. ground (arith, h a, own a)

  waiting_again :
      ((a : Attempt) → attempt_queued (f a).state ≡ true)
      → (as_ : List Attempt)
      → count_where (queued_of id) (update_where (running_attempt id n) f as_)
        ≡ count_where (queued_of id) as_ + count_where (running_attempt id n) as_
  waiting_again h as_ =
      count_where-update_into (queued_of id) (running_attempt id n) f as_
        λ a e. ground (arith, h a, own a)

-- What is seen of a job whose attempts are as its state has it.
pub data Fits (id : String) (db : Db) : Type 0 where
  fitting : {s : Option State} {q r : ℕ} → fits s q r ≡ true → Sees id s q r db → Fits id db

-- refusal has no result.
pub refusal-any :
    {A : Type 0} (id : String) {P : Tx → Type 0} {Q : A → Tx → Type 0} → Triple P (refusal id) Q
unfolding refusal
refusal-any id =
    Triple-bind _ _ Triple-get_db λ db. Triple-bind _ _ (Triple-of_option _ _) λ j. Triple-throw _

pub insert_attempt_row-own :
    {s : Option State} {q r : ℕ} (a : Attempt)
    → attempt_queued a.state ≡ true
    → attempt_running a.state ≡ false
    → Triple
        (λ t. Sees a.job_id s q r t.db)
        (insert_attempt_row a)
        (λ u t. Sees a.job_id s (q + 1) r t.db)
unfolding state_of queued_count running_count
insert_attempt_row-own {s = s} {q = q} {r = r} a e g = record {
  at = λ t h. insert_attempt_row-elim a t (Sees a.job_id s (q + 1) r) λ there fresh. record {
    sound = inserted_attempt-IsSound a t.db h.sound there;
    looks = record {
      state = h.looks.state;
      queued = ground (
        arith,
        count_where-append (queued_of a.job_id) t.db.attempts a,
        ==_refl a.job_id,
        h.looks.queued,
      );
      running =
          ground
            (arith, count_where-append (is_running_of a.job_id) t.db.attempts a, h.looks.running);
    };
  };
}

module _ (env : Env) (id : String) where
  pub insert_attempt-own :
      {s : Option State} {q r : ℕ} (n : ℕ) (trigger : Trigger) (answer : Option Answer)
      (notes : List String)
      → Triple
          (λ t. Sees id s q r t.db)
          (insert_attempt env id n trigger answer notes)
          (λ u t. Sees id s (q + 1) r t.db)
  unfolding insert_attempt
  insert_attempt-own n trigger answer notes =
      Triple-bind _ _ (Triple-fails env op_insert_attempt) λ u.
        Triple-bind _ _ Triple-get_db
          λ db. Triple-weaken (λ t h. h.1) (λ a t h. h) (insert_attempt_row-own _ refl refl)

  pub emit-own :
      {s : Option State} {q r : ℕ} (n : ℕ) (body : EventData)
      → Triple (λ t. Sees id s q r t.db) (emit env id n body) (λ u t. Sees id s q r t.db)
  emit-own n body = Triple-Keeps (emit-Sees env id n body)

  -- A job without open attempts is queued again with one that waits.
  pub requeue-own :
      {s : Option State} {q r : ℕ} (from : State) (trigger : Trigger) (answer : Option Answer)
      (notes : List String)
      → (s ≡ some from → (q ≡ 0) × (r ≡ 0))
      → Triple
          (λ t. Sees id s q r t.db)
          (requeue env id from trigger answer notes)
          (λ n t. Sees id (some State.queued) 1 0 t.db)
  unfolding requeue
  requeue-own {s = s} {q = q} {r = r} from trigger answer notes none_open =
      Triple-bind _ _ (transition-Turned env id (from ∷ []) State.queued) λ changed.
        Turned-if _ _
          (λ b e g.
            let z = none_open (e ∙ ap some (state_in-one g)) in
            Triple-bind _ _ Triple-get_db λ db.
              Triple-bind _ _
                (Triple-weaken (λ t h. h.1) (λ a t h. Sees-at h (omega (arith, z.0)) z.1)
                  (insert_attempt-own _ trigger answer notes))
                λ u. Triple-bind _ _ (emit-own _ _) λ v. Triple-pure _ (λ t h. h))
          (refusal-any id) changed

  active_total :
      (b : State) (q r : ℕ)
      → fits (some b) q r ≡ true
      → state_in b (State.queued ∷ State.running ∷ []) ≡ true
      → q + r ≡ 1
  active_total b q r h g = ground arith

  -- What a claim hands over.
  pub claim_first :
      {s : Option State} {q r : ℕ} (n : ℕ)
      → Triple
          (λ t. Sees id s q r t.db)
          (update_attempts (claimable id n) (hand_over env.now))
          (λ c t. Counted id s (λ p o. (p + o ≡ q + r) × (c ≤ o)) t.db)
  claim_first n =
      update_attempts-Counted (claimable id n) (hand_over env.now) (λ a. refl) _
        (λ as_ eq er. let k = handed id n env.now as_ in (omega (arith, k.0, eq, er), k.1))

  pub claim-own :
      {s : Option State} {q r : ℕ} (n : ℕ)
      → fits s q r ≡ true
      → Triple
          (λ t. Sees id s q r t.db)
          (claim env id n)
          (λ d t. Sees id (some State.running) 0 1 t.db)
  unfolding claim
  claim-own {s = s} {q = q} {r = r} n f = Triple-bind _ _ (claim_first n) λ c.
      Counted-elim λ p o rel. Triple-unless _ (c == 0) not_claimable λ some_handed.
        Triple-seam _ env op_claim (
          Triple-read _ λ db. Triple-take _ _ _ λ before e.
            Triple-bind _ _ (transition-Turned env id _ State.running) λ changed.
              Triple-bind _ _ (Turned-if _ _ (handed_one some_handed rel) (Triple-throw _) changed)
                λ u. Triple-read _ λ db. Triple-take _ _ _ λ a e.
                  Triple-bind _ _
                    (Triple-if (state_eq before.state State.queued)
                      (emit env id n (job_state (moved_to State.running n))) (pure tt)
                      (λ _. emit-own _ _) (λ _. Triple-pure tt λ t h. h))
                    λ u. Triple-bind _ _ (emit-own _ _) λ u. Triple-pure _ λ t h. h)
    where
      handed_one :
          {c p o : ℕ}
          → (c == 0) ≡ false
          → (p + o ≡ q + r) × (c ≤ o)
          → (b : State) → s ≡ some b
          → state_in b (State.queued ∷ State.running ∷ []) ≡ true
          → Triple
              (λ t. Sees id (some State.running) p o t.db)
              (pure tt)
              (λ u t. Sees id (some State.running) 0 1 t.db)
      handed_one g rel b e i =
          let one = active_total b q r (subst (λ x. fits x q r ≡ true) e f) i in
          Triple-pure tt λ t h.
            Sees-at h (ground (arith, g, one, rel.0, rel.1)) (ground (arith, g, one, rel.0, rel.1))

  pub fits_running :
      {s : Option State} {q r : ℕ} {b : State}
      → fits s q r ≡ true
      → s ≡ some b
      → state_in b (State.running ∷ []) ≡ true
      → (q ≡ 0) × (r ≡ 1)
  fits_running {q = q} {r = r} f e g =
      let f' : fits (some State.running) q r ≡ true =
        subst (λ x. fits x q r ≡ true) (e ∙ ap some (state_in-one g)) f in
      (ground arith, ground arith)

  -- The attempt that runs waits again.
  backoff_first :
      {s : Option State} {q r : ℕ} (n : ℕ)
      → Triple
          (λ t. Sees id s q r t.db)
          (update_attempts (running_attempt id n) (λ a. record a { state = AttemptState.queued }))
          (λ c t. Counted id s (λ p o. (p ≡ q + c) × (o + c ≡ r)) t.db)
  backoff_first n =
      update_attempts-Counted _ _ (λ a. refl) (λ c p o. _)
        (λ as_ eq er. (
          waiting_again id n _ (λ a. refl) (λ a. refl) as_
              ∙ ap (λ x. x + count_where (running_attempt id n) as_) eq,
          ended_running id n _ (λ a. refl) (λ a. refl) as_ ∙ er,
        ))

  pub backoff-own :
      {s : Option State} {q r : ℕ} (n : ℕ)
      → fits s q r ≡ true
      → Triple (λ t. Sees id s q r t.db) (backoff env id n) (λ d t. Fits id t.db)
  unfolding backoff
  backoff-own {s = s} {q = q} {r = r} n f = Triple-bind _ _ (backoff_first n) λ c.
      Counted-elim λ p o rel.
        Triple-if (c == 0) _ _
          (λ z.
            Triple-pure false
              λ t h. fitting f (Sees-at h (ground (arith, z, rel.0)) (ground (arith, z, rel.1))))
          (λ nz. Triple-bind _ _ (transition-Turned env id _ State.queued) λ changed.
            Triple-bind _ _
              (Turned-if _ _
                (λ b e g.
                  let one = fits_running {b = b} f e g in
                  Triple-pure tt λ t h.
                    Sees-at h (ground (arith, nz, one.0, one.1, rel.0, rel.1))
                      (ground (arith, nz, one.0, one.1, rel.0, rel.1)))
                (refusal-any id) changed)
              λ u.
                Triple-bind _ _ (emit-own {s = some State.queued} {q = 1} {r = 0} _ _)
                  λ u. Triple-pure true λ t h. fitting {s = some State.queued} refl h)
