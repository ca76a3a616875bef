-- ===== src/Jobs/Invariant/Moves.antt =====
-- What the statements of store.go that move a job or an attempt do to the counts of its attempts.
use agent_fox.Jobs.Statements.{update_jobs-elim}
use agent_fox.Jobs.Retention.{is_running_of}
use agent_fox.Jobs.Invariant.Sound.{updated-IsSound, update_attempts-IsSound}
use agent_fox.Jobs.Hoare.{Triple, Triple-bind, Triple-pure}
use agent_fox.Jobs.Txn.{update_attempts, Env, update_jobs, Tx, M}
use agent_fox.Jobs.Store.{state_in, transition, set_state}
use agent_fox.Table.Lookup.{both_left}
use agent_fox.Table.Counting.{count_where-le}
use agent_fox.Jobs.Invariant.View.{Sees, state_of, queued_count, running_count, queued_of}
use agent_fox.Table.{count_where, select_first, update_where}
use agent_fox.Jobs.Rows.{Job, is_job, Db, Attempt}
use agent_fox.Jobs.Model.{State, state_eq_iff}
use agent_fox.Prelude.{
  String, Option, Bool, ℕ, ◌&&◌, ◌≡◌, List, ◌<◌, ◌≤◌, some, ◌⊎◌, true, inl, ◌∷◌, Bool-cases, inr,
  arith, [], refl, false, if◌then◌else◌, ◌==◌, ℕ_Eq, ◌∙◌, sym,
}
use mathlib.Core.Option.{Option}
use mathlib.Core.Option

-- An update of the one job, on a condition of its state: either nothing was changed, or the job
-- was in a state of the condition and is in the new one.
pub data Moved (id : String) (c : State → Bool) (to : State) (s : Option State) (q r n : ℕ)
    (db : Db) : Type 0 where
  unmoved : n ≡ 0 → Sees id s q r db → Moved id c to s q r n db
  moved :
      0 < n
      → (before : State) → s ≡ some before
      → c before ≡ true
      → Sees id (some to) q r db
      → Moved id c to s q r n db

abbrev states : Option Job → Option State
states o = Option.map (λ j. j.state) o

module _ (id : String) (c : State → Bool) (to : State) (f : Job → Job) where
  abbrev here : Job → Bool
  here j = is_job id j && c j.state

  moved_state :
      (js : List Job)
      → ((j : Job) → (f j).id ≡ j.id)
      → ((j : Job) → (f j).state ≡ to)
      → count_where (is_job id) js ≤ 1
      → ((count_where here js ≡ 0)
          × (states (select_first (is_job id) (update_where here f js))
              ≡ states (select_first (is_job id) js)))
        ⊎ ((b : State) × (states (select_first (is_job id) js) ≡ some b)
            × (c b ≡ true)
            × (0 < count_where here js)
            × (states (select_first (is_job id) (update_where here f js)) ≡ some to))
  unfolding count_where select_first update_where
  moved_state [] same goes u = inl (refl, refl)
  moved_state (x ∷ js) same goes u = elim (Bool-cases (is_job id x)) [
    | inl hit ↦ elim (Bool-cases (c x.state)) [
      | inl good ↦ inr (x.state, ground arith, good, ground arith, ground (arith, same x, goes x))
      | inr bad ↦ inl (
        ground (
          arith,
          count_where-le here (is_job id) js (λ j e. both_left (is_job id j) (c j.state) e),
        ),
        ground arith,
      )
    ]
    | inr miss ↦ elim (moved_state js same goes (ground arith)) [
      | inl h ↦ inl (ground arith, ground (arith, same x))
      | inr h ↦ inr (h.0, ground arith, h.2, ground arith, ground (arith, same x))
    ]
  ]

  pub update_jobs-Moved :
      {s : Option State} {q r : ℕ}
      → ((j : Job) → (f j).id ≡ j.id)
      → ((j : Job) → (f j).state ≡ to)
      → Triple
          (λ t. Sees id s q r t.db)
          (update_jobs (λ j. is_job id j && c j.state) f)
          (λ n t. Moved id c to s q r n t.db)
  unfolding state_of queued_count running_count
  update_jobs-Moved {s} {q} {r} same goes = record {
    at = λ t h. update_jobs-elim here f t (Moved id c to s q r) λ holds.
        let sound = updated-IsSound here f same t.db h.sound holds in
        elim (moved_state t.db.jobs same goes (h.sound.keys id)) [
          | inl m ↦ unmoved m.0 (record {
            sound = sound;
            looks = record {
              state = m.1 ∙ h.looks.state;
              queued = h.looks.queued;
              running = h.looks.running;
            };
          })
          | inr m ↦ moved m.3 m.0 (sym h.looks.state ∙ m.1) m.2 (record {
            sound = sound;
            looks = record { state = m.4; queued = h.looks.queued; running = h.looks.running };
          })
        ];
  }

-- Store.transition: false is that nothing was changed, and true that the job was in a state that
-- it may leave and is in the new one.
pub data Turned (id : String) (from : List State) (to : State) (s : Option State) (q r : ℕ)
    (db : Db) : Bool → Type 0 where
  stayed : Sees id s q r db → Turned id from to s q r db false
  turned :
      (before : State)
      → s ≡ some before
      → state_in before from ≡ true
      → Sees id (some to) q r db
      → Turned id from to s q r db true

Turned-of :
    {id : String} {from : List State} {to : State} {s : Option State} {q r n : ℕ} {db : Db}
    → Moved id (λ b. state_in b from) to s q r n db
    → Turned id from to s q r db (if n == 0 then false else true)
Turned-of {n = n} (unmoved e h) = let z : (n == 0) ≡ true = ground (arith, e) in rw z (stayed h)
Turned-of {n = n} (moved l b e c h) =
    let z : (n == 0) ≡ false = ground (arith, l) in rw z (turned b e c h)

pub transition-Turned :
    (env : Env) (id : String) (from : List State) (to : State) {s : Option State} {q r : ℕ}
    → Triple
        (λ t. Sees id s q r t.db)
        (transition env id from to)
        (λ b t. Turned id from to s q r t.db b)
unfolding transition
transition-Turned env id from to =
    Triple-bind _ _
      (update_jobs-Moved id (λ b. state_in b from) to (set_state env.now to) (λ j. refl)
        (λ j. refl))
      λ n. Triple-pure _ (λ t h. Turned-of h)

-- What follows a transition, by what it did.
pub Turned-if :
    {B : Type 0} {id : String} {from : List State} {to : State} {s : Option State} {q r : ℕ}
    {Q : B → Tx → Type 0} (m n : M B)
    → ((before : State)
        → s ≡ some before
        → state_in before from ≡ true
        → Triple (λ t. Sees id (some to) q r t.db) m Q)
    → Triple (λ t. Sees id s q r t.db) n Q
    → (changed : Bool)
    → Triple (λ t. Turned id from to s q r t.db changed) (if changed then m else n) Q
Turned-if m n hm hn true = record { at = λ t h. elim h [ turned b e g v ↦ (hm b e g).at t v ] }
Turned-if m n hm hn false = record { at = λ t h. elim h [ stayed v ↦ hn.at t v ] }

pub state_in-one : {s from : State} → state_in s (from ∷ []) ≡ true → s ≡ from
state_in-one {s} {from} h = ground (arith, state_eq_iff s from)

-- A job with its state, where the counts of its attempts are only known to be related.
pub data Counted (id : String) (s : Option State) (R : ℕ → ℕ → Type 0) (db : Db) : Type 0 where
  counted : (p o : ℕ) → R p o → Sees id s p o db → Counted id s R db

pub Counted-elim :
    {B : Type 0} {id : String} {s : Option State} {R : ℕ → ℕ → Type 0} {m : M B}
    {Q : B → Tx → Type 0}
    → ((p o : ℕ) → R p o → Triple (λ t. Sees id s p o t.db) m Q)
    → Triple (λ t. Counted id s R t.db) m Q
Counted-elim h = record { at = λ t c. elim c [ counted p o e v ↦ (h p o e).at t v ] }

-- An update of attempts leaves the state of the job, and its counts are those of the new table.
pub update_attempts-Counted :
    {id : String} {s : Option State} {q r : ℕ}
    → (test : Attempt → Bool) (f : Attempt → Attempt) → ((a : Attempt) → (f a).job_id ≡ a.job_id)
    → (R : ℕ → ℕ → ℕ → Type 0)
    → ((as_ : List Attempt)
        → count_where (queued_of id) as_ ≡ q
        → count_where (is_running_of id) as_ ≡ r
        → R
            (count_where test as_)
            (count_where (queued_of id) (update_where test f as_))
            (count_where (is_running_of id) (update_where test f as_)))
    → Triple (λ t. Sees id s q r t.db) (update_attempts test f) (λ n t. Counted id s (R n) t.db)
unfolding update_attempts state_of queued_count running_count
update_attempts-Counted test f same R related = record {
  at = λ t h. counted _ _ (related t.db.attempts h.looks.queued h.looks.running) (record {
    sound = (update_attempts-IsSound test f same).at t h.sound;
    looks = record { state = h.looks.state; queued = refl; running = refl };
  });
}
