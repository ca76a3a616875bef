-- ===== src/Jobs/Invariant/View.antt =====
-- What the attempts of a job are in each state of the job, and what the statements of store.go do
-- to that.
use mathlib.Core.Option
use agent_fox.Jobs.Statements.{update_jobs-elim}
use agent_fox.Table.Counting.{count_where-update_same}
use agent_fox.Jobs.Retention.{is_running_of}
use agent_fox.Jobs.Hoare.{Keeps, Keeps-both, keeps_rules}
use agent_fox.Jobs.Invariant.Sound.{IsSound, emit-IsSound, updated-IsSound, update_attempts-IsSound}
use agent_fox.Table.{count_where, select_first, update_where, exists_where}
use agent_fox.Jobs.Model.{State}
use agent_fox.Jobs.Rows.{Db, Attempt, of_job, Event, Job, EventData, is_job, attempt_queued}
use agent_fox.Prelude.{
  String, Option, Bool, ℕ, some, ◌≡◌, ◌&&◌, ◌==◌, Bool-cases, true, leb, List, ℕ_Eq, inl, ◌∙◌, inr,
  ◌∷◌, arith, [], refl, sym,
}
use agent_fox.Jobs.Txn.{update_jobs, update_attempts, insert_event_row, M, insert_event, emit, Env}

-- The state of the job, and how many of its attempts are queued and how many running.
unfoldable pub state_of : String → Db → Option State
state_of id db = Option.map (λ j. j.state) (select_first (is_job id) db.jobs)

abbrev pub queued_of : String → Attempt → Bool
queued_of id a = of_job id a && attempt_queued a.state

unfoldable pub queued_count : String → Db → ℕ
queued_count id db = count_where (queued_of id) db.attempts

unfoldable pub running_count : String → Db → ℕ
running_count id db = count_where (is_running_of id) db.attempts

-- A queued job has one attempt that waits, a running one has one that runs, and a cancelled one may
-- have one that runs. No other attempt of a job is open.
abbrev pub fits : Option State → ℕ → ℕ → Bool
fits (some State.queued) q r = q == 1 && r == 0
fits (some State.running) q r = q == 0 && r == 1
fits (some State.cancelled) q r = q == 0 && leb r 1
fits _ q r = q == 0 && r == 0

-- A job with its state and the numbers of its queued and its running attempts.
pub record Looks (id : String) (s : Option State) (q r : ℕ) (db : Db) : Type 0 where
  pub state : state_of id db ≡ s
  pub queued : queued_count id db ≡ q
  pub running : running_count id db ≡ r

-- The same, in a file whose keys hold.
pub record Sees (id : String) (s : Option State) (q r : ℕ) (db : Db) : Type 0 where
  pub sound : IsSound db
  pub looks : Looks id s q r db

-- An update of jobs that leaves the state of the job.
kept_state :
    (id : String) (test : Job → Bool) (f : Job → Job) (js : List Job)
    → ((j : Job) → (f j).id ≡ j.id)
    → ((j : Job) → is_job id j ≡ true → test j ≡ true → (f j).state ≡ j.state)
    → Option.map (λ j. j.state) (select_first (is_job id) (update_where test f js))
      ≡ Option.map (λ j. j.state) (select_first (is_job id) js)
unfolding select_first update_where
kept_state id test f [] same keeps = refl
kept_state id test f (j ∷ js) same keeps =
    ground (arith, same j, keeps j, kept_state id test f js same keeps)

pub Sees-at :
    {id : String} {s : Option State} {q r p n : ℕ} {db : Db}
    → Sees id s q r db
    → q ≡ p
    → r ≡ n
    → Sees id s p n db
Sees-at h e g = rw (sym e, sym g) h

module _ {id : String} {s : Option State} {q r : ℕ} where
  pub Keeps-Sees :
      {A : Type 0} {m : M A} → Keeps IsSound m → Keeps (Looks id s q r) m → Keeps (Sees id s q r) m
  Keeps-Sees k l =
      Keeps-both (λ db h. (h.sound, h.looks)) (λ db h g. record { sound = h; looks = g }) k l

  -- The events are not seen.
  insert_event_row-Looks : (e : Event) → Keeps (Looks id s q r) (insert_event_row e)
  unfolding insert_event_row state_of queued_count running_count
  insert_event_row-Looks e = record {
    at = λ t h. elim (Bool-cases (exists_where (is_job e.job_id) t.db.jobs)) [
      | inl g ↦ rw g (record { state = h.state; queued = h.queued; running = h.running })
      | inr g ↦ rw g tt
    ];
  }

  insert_event-Looks :
      (env : Env) (job : String) (n : ℕ) (body : EventData)
      → Keeps (Looks id s q r) (insert_event env job n body)
  unfolding insert_event
  insert_event-Looks env job n body = search (keeps_rules, insert_event_row-Looks)

  emit-Looks :
      (env : Env) (job : String) (n : ℕ) (body : EventData)
      → Keeps (Looks id s q r) (emit env job n body)
  unfolding emit
  emit-Looks env job n body = search (keeps_rules, insert_event-Looks)

  pub emit-Sees :
      (env : Env) (job : String) (n : ℕ) (body : EventData)
      → Keeps (Sees id s q r) (emit env job n body)
  emit-Sees env job n body = Keeps-Sees (emit-IsSound env job n body) (emit-Looks env job n body)

  pub update_jobs-Sees :
      (test : Job → Bool) (f : Job → Job)
      → ((j : Job) → (f j).id ≡ j.id)
      → ((j : Job) → is_job id j ≡ true → test j ≡ true → (f j).state ≡ j.state)
      → Keeps (Sees id s q r) (update_jobs test f)
  unfolding state_of queued_count running_count
  update_jobs-Sees test f same keeps = record {
    at = λ t h.
        update_jobs-elim test f t (λ n db. Sees id s q r db)
          λ holds. record {
            sound = updated-IsSound test f same t.db h.sound holds;
            looks = record {
              state = kept_state id test f t.db.jobs same keeps ∙ h.looks.state;
              queued = h.looks.queued;
              running = h.looks.running;
            };
          };
  }

  pub update_attempts-Sees :
      (test : Attempt → Bool) (f : Attempt → Attempt)
      → ((a : Attempt) → (f a).job_id ≡ a.job_id)
      → ((a : Attempt) → test a ≡ true → queued_of id (f a) ≡ queued_of id a)
      → ((a : Attempt) → test a ≡ true → is_running_of id (f a) ≡ is_running_of id a)
      → Keeps (Sees id s q r) (update_attempts test f)
  unfolding state_of queued_count running_count update_attempts
  update_attempts-Sees test f same kq kr =
      Keeps-Sees (update_attempts-IsSound test f same) (record { at = λ t h. looked t.db h })
    where
      looked :
          (db : Db)
          → Looks id s q r db
          → Looks id s q r (record db { attempts = update_where test f db.attempts })
      looked db h = record {
        state = h.state;
        queued = count_where-update_same (queued_of id) test f db.attempts kq ∙ h.queued;
        running = count_where-update_same (is_running_of id) test f db.attempts kr ∙ h.running;
      }
