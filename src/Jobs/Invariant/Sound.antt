-- ===== src/Jobs/Invariant/Sound.antt =====
-- The keys of the tables: what each statement keeps of them.
use agent_fox.Jobs.Statements.{update_jobs-elim, insert_attempt_row-elim, insert_job-elim}
use agent_fox.Prelude.{
  ◌≤◌, ◌≡◌, refl, ◌∙◌, ap, subst, Bool-cases, inl, inr, sym, String, Bool, true, false, List, [],
  ◌∷◌, ◌++◌, arith, ==_iff, String_Eq, ◌==◌, ℕ, ◌+◌,
}
use agent_fox.Table.{count_where, exists_where, update_where}
use agent_fox.Table.Counting.{count_where-append, count_where-update_same, count_where-exists}
use agent_fox.Table.Numbering.{NumberedFrom, max_where-NumberedFrom, NumberedFrom-append}
use agent_fox.Jobs.Rows.{
  Job, Attempt, Db, is_job, of_job, event_of, one_open, empty_db, Event, EventData,
}
use agent_fox.Jobs.Txn.{
  insert_job, insert_attempt_row, update_jobs, update_attempts, insert_event, insert_event_row,
  emit, Env, last_seq, next_event, op_insert_event,
}
use agent_fox.Jobs.Hoare.{
  Keeps, Triple, Keeps-bind, Keeps-fails, Keeps-note_event, Keeps-Triple, Triple-bind,
  Triple-get_db, Triple-weaken, Triple-pure,
}
use mathlib.Core.Bool.{false≢true}

pub record IsSound (db : Db) : Type 0 where
  -- The primary key of af_jobs.
  pub keys : (id : String) → count_where (is_job id) db.jobs ≤ 1
  -- The index of the open jobs.
  pub index : one_open db.jobs ≡ true
  -- The foreign keys to af_jobs.
  pub attempts_owned :
      (id : String)
      → exists_where (is_job id) db.jobs ≡ false
      → count_where (of_job id) db.attempts ≡ 0
  pub events_owned :
      (id : String)
      → exists_where (is_job id) db.jobs ≡ false
      → count_where (event_of id) db.events ≡ 0
  -- The events of a job are numbered from 1 without a gap.
  pub seqs : (id : String) → NumberedFrom (event_of id) (λ e. e.seq) 0 db.events

pub empty-IsSound : IsSound empty_db
unfolding count_where exists_where one_open
empty-IsSound = record {
  keys = λ id. omega arith;
  index = refl;
  attempts_owned = λ id h. refl;
  events_owned = λ id h. refl;
  seqs = λ id. tt;
}

same_job : (id : String) (f : Job → Job) (j : Job) → (f j).id ≡ j.id → is_job id (f j) ≡ is_job id j
same_job id f j e = ap (λ k. (k == id)) e

exists-update :
    (id : String) (test : Job → Bool) (f : Job → Job) (js : List Job)
    → ((j : Job) → (f j).id ≡ j.id)
    → exists_where (is_job id) (update_where test f js) ≡ exists_where (is_job id) js
unfolding exists_where update_where
exists-update id test f [] h = refl
exists-update id test f (j ∷ js) h =
    ground (arith, same_job id f j (h j), exists-update id test f js h)

pub updated-IsSound :
    (test : Job → Bool) (f : Job → Job)
    → ((j : Job) → (f j).id ≡ j.id)
    → (db : Db) → IsSound db
    → one_open (update_where test f db.jobs) ≡ true
    → IsSound (record db { jobs = update_where test f db.jobs })
updated-IsSound test f same db h holds = record {
  keys = λ id.
      rw (count_where-update_same (is_job id) test f db.jobs (λ j _. same_job id f j (same j)))
        (h.keys id);
  index = holds;
  attempts_owned = λ id e. h.attempts_owned id (sym (exists-update id test f db.jobs same) ∙ e);
  events_owned = λ id e. h.events_owned id (sym (exists-update id test f db.jobs same) ∙ e);
  seqs = h.seqs;
}

pub update_jobs-IsSound :
    (test : Job → Bool) (f : Job → Job)
    → ((j : Job) → (f j).id ≡ j.id)
    → Keeps IsSound (update_jobs test f)
update_jobs-IsSound test f same = record {
  at = λ t h.
      update_jobs-elim test f t (λ n db. IsSound db)
        λ holds. updated-IsSound test f same t.db h holds;
}

of_job-append :
    (id : String) (as_ : List Attempt) (a : Attempt)
    → (a.job_id == id) ≡ false
    → count_where (of_job id) (as_ ++ a ∷ []) ≡ count_where (of_job id) as_
of_job-append id as_ a e = ground (arith, count_where-append (of_job id) as_ a)

pub update_attempts-IsSound :
    (test : Attempt → Bool) (f : Attempt → Attempt)
    → ((a : Attempt) → (f a).job_id ≡ a.job_id)
    → Keeps IsSound (update_attempts test f)
unfolding update_attempts
update_attempts-IsSound test f same = record {
  at = λ t h. record {
    keys = h.keys;
    index = h.index;
    attempts_owned = λ id e.
        count_where-update_same (of_job id) test f t.db.attempts
          (λ a _. ap (λ k. (k == id)) (same a))
        ∙ h.attempts_owned id e;
    events_owned = h.events_owned;
    seqs = h.seqs;
  };
}

-- A row that is inserted belongs to a job that is there.
other_owner :
    (id k : String) (js : List Job)
    → exists_where (is_job k) js ≡ true
    → exists_where (is_job id) js ≡ false
    → (k == id) ≡ false
other_owner id k js there not_there = elim (Bool-cases (k == id)) [
  | inl e ↦ absurd (false≢true (sym not_there ∙ rw (sym ((==_iff k id).0 e)) there))
  | inr e ↦ e
]

pub inserted_attempt-IsSound :
    (a : Attempt) (db : Db)
    → IsSound db
    → exists_where (is_job a.job_id) db.jobs ≡ true
    → IsSound (record db { attempts = db.attempts ++ a ∷ [] })
inserted_attempt-IsSound a db h there = record {
  keys = h.keys;
  index = h.index;
  attempts_owned = λ id e.
      of_job-append id db.attempts a (other_owner id a.job_id db.jobs there e)
      ∙ h.attempts_owned id e;
  events_owned = h.events_owned;
  seqs = h.seqs;
}

pub insert_attempt_row-IsSound : (a : Attempt) → Keeps IsSound (insert_attempt_row a)
insert_attempt_row-IsSound a = record {
  at = λ t h.
      insert_attempt_row-elim a t IsSound λ there fresh. inserted_attempt-IsSound a t.db h there;
}

absent_before :
    (id : String) (js : List Job) (j : Job)
    → exists_where (is_job id) (js ++ j ∷ []) ≡ false
    → exists_where (is_job id) js ≡ false
unfolding exists_where
absent_before id [] j e = refl
absent_before id (x ∷ js) j e = ground (arith, absent_before id js j)

inserted_key :
    (id : String) (js : List Job) (j : Job)
    → exists_where (is_job j.id) js ≡ false
    → count_where (is_job id) js ≤ 1
    → count_where (is_job id) (js ++ j ∷ []) ≤ 1
inserted_key id js j fresh u = elim (Bool-cases (j.id == id)) [
  | inl e ↦ ground (arith, count_where-append (is_job id) js j, none_of_id ((==_iff j.id id).0 e))
  | inr e ↦ ground (arith, count_where-append (is_job id) js j)
]
  where
    none_of_id : j.id ≡ id → count_where (is_job id) js ≡ 0
    none_of_id e =
        count_where-exists (is_job id) js (subst (λ k. exists_where (is_job k) js ≡ false) e fresh)

pub inserted_job-IsSound :
    (j : Job) (db : Db)
    → IsSound db
    → exists_where (is_job j.id) db.jobs ≡ false
    → one_open (db.jobs ++ j ∷ []) ≡ true
    → IsSound (record db { jobs = db.jobs ++ j ∷ [] })
inserted_job-IsSound j db h fresh holds = record {
  keys = λ id. inserted_key id db.jobs j fresh (h.keys id);
  index = holds;
  attempts_owned = λ id e. h.attempts_owned id (absent_before id db.jobs j e);
  events_owned = λ id e. h.events_owned id (absent_before id db.jobs j e);
  seqs = h.seqs;
}

pub insert_job-IsSound : (j : Job) → Keeps IsSound (insert_job j)
insert_job-IsSound j = record {
  at = λ t h. insert_job-elim j t IsSound λ fresh holds. inserted_job-IsSound j t.db h fresh holds;
}

-- The number that an event is given is the one after the last of its job.
inserted_event :
    (e : Event) (db : Db)
    → IsSound db
    → e.seq ≡ last_seq e.job_id db.events + 1
    → exists_where (is_job e.job_id) db.jobs ≡ true
    → IsSound (record db { events = db.events ++ e ∷ [] })
inserted_event e db h next there = record {
  keys = h.keys;
  index = h.index;
  attempts_owned = h.attempts_owned;
  events_owned = λ id absent. ground (
    arith,
    count_where-append (event_of id) db.events e,
    other_owner id e.job_id db.jobs there absent,
    h.events_owned id absent,
  );
  seqs =
      λ id. NumberedFrom-append (event_of id) (λ x. x.seq) 0 db.events e (h.seqs id) (numbered id);
}
  where
    numbered :
        (id : String)
        → (e.job_id == id) ≡ true
        → e.seq ≡ 0 + count_where (event_of id) db.events + 1
    numbered id o =
        let same : e.job_id ≡ id = (==_iff e.job_id id).0 o in
        let counted = max_where-NumberedFrom (event_of id) (λ x. x.seq) 0 db.events (h.seqs id) in
        omega (arith, counted, next, ap (λ k. last_seq k db.events) same)

insert_event_row-IsSound :
    (e : Event)
    → Triple
        (λ t. IsSound t.db × (e.seq ≡ last_seq e.job_id t.db.events + 1))
        (insert_event_row e)
        (λ u t. IsSound t.db)
unfolding insert_event_row
insert_event_row-IsSound e = record { at = λ t h. ground (arith, inserted_event e t.db h.0 h.1) }

insert_event-IsSound :
    (env : Env) (id : String) (attempt : ℕ) (body : EventData)
    → Keeps IsSound (insert_event env id attempt body)
unfolding insert_event
insert_event-IsSound env id attempt body = Keeps-bind _ _ (Keeps-fails env op_insert_event) λ u.
    Keeps-Triple (
      Triple-bind _ _ Triple-get_db λ db.
        Triple-bind _ _
          (Triple-weaken (λ t h. (h.1, ap (λ d. last_seq id d.events + 1) h.0)) (λ a t h. h)
            (insert_event_row-IsSound (next_event env id attempt body db)))
          λ v. Triple-pure _ (λ t h. h))

-- Every event that is stored keeps the numbering of the events of its job.
pub emit-IsSound :
    (env : Env) (id : String) (attempt : ℕ) (body : EventData)
    → Keeps IsSound (emit env id attempt body)
unfolding emit
emit-IsSound env id attempt body =
    Keeps-bind _ _ (insert_event-IsSound env id attempt body) Keeps-note_event
