-- ===== src/Jobs/Publishing.antt =====
-- The events that the transactions of internal/service/jobs/store.go store and publish.
pub mod Logged
use agent_fox.Jobs.Rows.{Job, Attempt, Event, EventData}
use agent_fox.Jobs.Hoare.{
  Triple-pure, Triple-weaken, Triple-throw, Triple-get_db, Triple-bind, Triple, Triple-of_option,
  Triple-fails, Post, Triple-seam, Triple-read,
}
use agent_fox.Prelude.{
  false, Bool, List, Option, if◌then◌else◌, arith, String, ◌≡◌, ℕ, ◌++◌, ◌∷◌, [], true, ◌∙◌,
  append_assoc,
}
use agent_fox.Jobs.Txn.{
  M, pure, Error, get_db, Env, update_jobs, insert_job, update_attempts, insert_attempt_row,
  insert_event, throw, Op, ◌>>=◌, insert_event_row, of_option, fails, Tx, op_insert_event,
  note_event, emit,
}

-- A transaction that stores events only by emit: the events of the file are those before it and
-- those that it will publish.
pub record Logs {A : Type 0} (m : M A) : Type 0 where
  pub at :
      (before : List Event) (t : Tx)
      → t.db.events ≡ before ++ t.stored
      → Post (λ a u. u.db.events ≡ before ++ u.stored) (m t)

Logs-Triple :
    {A : Type 0} {m : M A}
    → ((before : List Event)
        → Triple
            (λ t. t.db.events ≡ before ++ t.stored)
            m
            (λ a u. u.db.events ≡ before ++ u.stored))
    → Logs m
Logs-Triple h = record { at = λ before. (h before).at }

Triple-Logs :
    {A : Type 0} {m : M A}
    → Logs m
    → (before : List Event)
    → Triple (λ t. t.db.events ≡ before ++ t.stored) m (λ a u. u.db.events ≡ before ++ u.stored)
Triple-Logs h before = record { at = h.at before }

pub Logs-pure : {A : Type 0} (a : A) → Logs (pure a)
Logs-pure a = Logs-Triple λ before. Triple-pure a (λ t h. h)

pub Logs-throw : {A : Type 0} (e : Error) → Logs (throw {A = A} e)
Logs-throw e = Logs-Triple λ before. Triple-throw e

pub Logs-of_option : {A : Type 0} (e : Error) (o : Option A) → Logs (of_option e o)
Logs-of_option e o =
    Logs-Triple λ before. Triple-weaken (λ t h. h) (λ a t h. h.1) (Triple-of_option e o)

pub Logs-get_db : Logs get_db
Logs-get_db = Logs-Triple λ before. Triple-weaken (λ t h. h) (λ a t h. h.1) Triple-get_db

pub Logs-fails : (env : Env) (op : Op) → Logs (fails env op)
Logs-fails env op = Logs-Triple λ before. Triple-fails env op

pub Logs-if : {A : Type 0} (b : Bool) (m n : M A) → Logs m → Logs n → Logs (if b then m else n)
Logs-if true m n hm hn = hm
Logs-if false m n hm hn = hn

pub Logs-bind :
    {A B : Type 0} (m : M A) (f : A → M B) → Logs m → ((a : A) → Logs (f a)) → Logs (m >>= f)
Logs-bind m f hm hf =
    Logs-Triple λ before. Triple-bind m f (Triple-Logs hm before) (λ a. Triple-Logs (hf a) before)

pub Logs-update_jobs : (test : Job → Bool) (f : Job → Job) → Logs (update_jobs test f)
unfolding update_jobs
Logs-update_jobs test f = record { at = λ before t h. ground (arith, h) }

pub Logs-insert_job : (j : Job) → Logs (insert_job j)
unfolding insert_job
Logs-insert_job j = record { at = λ before t h. ground (arith, h) }

pub Logs-update_attempts :
    (test : Attempt → Bool) (f : Attempt → Attempt) → Logs (update_attempts test f)
unfolding update_attempts
Logs-update_attempts test f = record { at = λ before t h. h }

pub Logs-insert_attempt_row : (a : Attempt) → Logs (insert_attempt_row a)
unfolding insert_attempt_row
Logs-insert_attempt_row a = record { at = λ before t h. ground (arith, h) }

-- An event is stored and noted for the publisher in one step.
row_stored :
    (before : List Event) (e : Event)
    → Triple
        (λ t. t.db.events ≡ before ++ t.stored)
        (insert_event_row e)
        (λ u t. t.db.events ≡ (before ++ t.stored) ++ e ∷ [])
unfolding insert_event_row
row_stored before e = record { at = λ t h. ground (arith, h) }

row_noted :
    (before : List Event) (e : Event)
    → Triple
        (λ t. t.db.events ≡ (before ++ t.stored) ++ e ∷ [])
        (note_event e)
        (λ u t. t.db.events ≡ before ++ t.stored)
unfolding note_event
row_noted before e = record { at = λ t h. h ∙ append_assoc before t.stored (e ∷ []) }

pub Logs-emit : (env : Env) (id : String) (n : ℕ) (body : EventData) → Logs (emit env id n body)
unfolding emit insert_event
Logs-emit env id n body = Logs-Triple λ before.
    Triple-bind _ _
      (Triple-seam _ env op_insert_event (
        Triple-read _ λ db.
          Triple-bind _ _ (row_stored before _) λ u.
            Triple-pure _ {Q = λ e t. t.db.events ≡ (before ++ t.stored) ++ e ∷ []} (λ t h. h)))
      λ e. row_noted before e
