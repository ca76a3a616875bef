-- ===== src/Jobs/Txn.antt =====
-- store.go: a transaction of a job (txn, Store.run), the statements it is made of, the numbering of
-- events (emit), and the fault seam (Store.fails).
use agent_fox.Prelude.{ℕ, ◌+◌, String, Bool, Option, none, some, List, [], ◌∷◌, ◌++◌, if◌then◌else◌}
use agent_fox.Table.{update_where, count_where, exists_where, max_where}
use agent_fox.Jobs.Model.{State}
use agent_fox.Jobs.Rows.{Job, Attempt, Event, EventData, Db, is_job, is_attempt, event_of, one_open}

-- The operations that the fault seam names.
pub data Op : Type 0 where
  op_insert_job op_insert_attempt op_insert_event op_claim : Op

-- The errors of the store. `fault` is one that the seam gives, `constraint` a primary or a foreign
-- key, `no_rows` sql.ErrNoRows, `file_error` that of the files of an attempt, `panic` the use of a
-- question that is not there.
pub data Error : Type 0 where
  not_found duplicate not_claimable constraint no_rows file_error panic : Error
  state_error : State → Error
  fault : ℕ → Error

pub data Result {ℓ} (A : Type ℓ) : Type ℓ where
  ok : A → Result A
  err : Error → Result A

-- The clock of the store (Store.now) and its fault seam (Store.fault), `none` for no error.
pub record Env : Type 0 where
  pub now : ℕ
  pub fault : Op → Option ℕ

-- A transaction in progress: the file as it would be, and the events stored so far (txn.events).
pub record Tx : Type 0 where
  pub db : Db
  pub stored : List Event

abbrev pub M : Type 0 → Type 0
M A = Tx → Result (A × Tx)

unfoldable pub pure : {A : Type 0} → A → M A
pure a t = ok (a, t)

unfoldable pub throw : {A : Type 0} → Error → M A
throw e t = err e

infixl 5 ◌>>=◌ ◌>>◌
unfoldable pub ◌>>=◌ : {A B : Type 0} → M A → (A → M B) → M B
◌>>=◌ m f t = elim (m t) [ err e ↦ err e | ok (a, t') ↦ f a t' ]

abbrev pub ◌>>◌ : {A B : Type 0} → M A → M B → M B
m >> k = m >>= λ _. k

unfoldable pub get_db : M Db
get_db t = ok (t.db, t)

unfoldable pub of_option : {A : Type 0} → Error → Option A → M A
of_option e none t = err e
of_option e (some a) t = ok (a, t)

-- Store.fails
unfoldable pub fails : Env → Op → M (Unit {0})
fails env op t = elim (env.fault op) [ none ↦ ok (tt, t) | some k ↦ err (fault k) ]

-- UPDATE af_jobs SET f WHERE test, and the rows affected. A violation of the unique index is
-- ErrDuplicate (uniqueViolation).
unfoldable pub update_jobs : (Job → Bool) → (Job → Job) → M ℕ
update_jobs test f t =
    let jobs = update_where test f t.db.jobs in
    if one_open jobs
    then ok (count_where test t.db.jobs, record t { db = record t.db { jobs = jobs } })
    else err duplicate

-- INSERT INTO af_jobs: the primary key, then the unique index.
unfoldable pub insert_job : Job → M (Unit {0})
insert_job j t =
    let jobs = t.db.jobs ++ j ∷ [] in
    if exists_where (is_job j.id) t.db.jobs
    then err constraint
    else if one_open jobs
    then ok (tt, record t { db = record t.db { jobs = jobs } })
    else err duplicate

-- UPDATE af_attempts SET f WHERE test, and the rows affected.
unfoldable pub update_attempts : (Attempt → Bool) → (Attempt → Attempt) → M ℕ
update_attempts test f t = ok (
  count_where test t.db.attempts,
  record t { db = record t.db { attempts = update_where test f t.db.attempts } },
)

-- INSERT INTO af_attempts: the foreign key to af_jobs, and the primary key.
unfoldable pub insert_attempt_row : Attempt → M (Unit {0})
insert_attempt_row a t =
    if exists_where (is_job a.job_id) t.db.jobs
    then if exists_where (is_attempt a.job_id a.n) t.db.attempts
      then err constraint
      else ok (tt, record t { db = record t.db { attempts = t.db.attempts ++ a ∷ [] } })
    else err constraint

-- INSERT INTO af_events: the foreign key to af_jobs.
unfoldable pub insert_event_row : Event → M (Unit {0})
insert_event_row e t =
    if exists_where (is_job e.job_id) t.db.jobs
    then ok (tt, record t { db = record t.db { events = t.db.events ++ e ∷ [] } })
    else err constraint

-- Store.insertEvent: the number after the last one of the job.
abbrev pub last_seq : String → List Event → ℕ
last_seq id es = max_where (event_of id) (λ e. e.seq) es

abbrev pub next_event : Env → String → ℕ → EventData → Db → Event
next_event env id attempt body db = record {
  job_id = id;
  seq = last_seq id db.events + 1;
  attempt = attempt;
  ts = env.now;
  body = body;
}

unfoldable pub insert_event : Env → String → ℕ → EventData → M Event
insert_event env id attempt body = do
  fails env op_insert_event
  db ← get_db
  insert_event_row (next_event env id attempt body db)
  pure (next_event env id attempt body db)

-- x.events = append(x.events, ev)
unfoldable pub note_event : Event → M (Unit {0})
note_event e t = ok (tt, record t { stored = t.stored ++ e ∷ [] })

-- txn.emit and txn.emitRaw
unfoldable pub emit : Env → String → ℕ → EventData → M (Unit {0})
emit env id attempt body = do e ← insert_event env id attempt body; note_event e

-- The state file, and all that has been handed to the publisher.
pub record World : Type 0 where
  pub db : Db
  pub published : List Event

abbrev pub begin_tx : Db → Tx
begin_tx db = record { db = db; stored = [] }

-- What becomes of a transaction: it is rolled back on an error, and otherwise committed, and then
-- the events that it stored are published in order.
unfoldable pub commit : {A : Type 0} → World → Result (A × Tx) → Result A × World
commit w (err e) = (err e, w)
commit w (ok (a, t)) = (ok a, record { db = t.db; published = w.published ++ t.stored })

-- Store.run. A statement made outside a transaction is a transaction of its own.
unfoldable pub run : {A : Type 0} → M A → World → Result A × World
unfolding commit
run m w = commit w (m (begin_tx w.db))
