-- ===== src/Jobs/Invariant/Numbers.antt =====
-- The numbers of the attempts of a job, over the statements of internal/service/jobs/store.go.
use agent_fox.Jobs.Model.{Trigger, Answer}
use agent_fox.Jobs.Statements.{
  update_jobs-elim, delete_job-elim, insert_job-elim, insert_attempt_row-elim,
}
use agent_fox.Jobs.Invariant.Sound.{IsSound}
use agent_fox.Table.{max_where, exists_where, delete_where, count_where}
use agent_fox.Jobs.Hoare.{Keeps, Triple, keeps_rules, Triple-seam, Triple-read}
use agent_fox.Table.Numbering.{
  NumberedFrom, NumberedFrom-update, max_where-NumberedFrom, NumberedFrom-append,
  NumberedFrom-delete, NumberedFrom-delete_apart,
}
use agent_fox.Jobs.Store.{insert_attempt, new_attempt}
use agent_fox.Prelude.{
  String, Bool, ◌≡◌, Bool-cases, ℕ, ◌+◌, ap, ◌==◌, Option, arith, String_Eq, inl, inr, subst, List,
  sym, ==_iff,
}
use agent_fox.Jobs.Retention.{delete_events, delete_attempts, delete_job}
use agent_fox.Jobs.Txn.{
  update_attempts, insert_event_row, emit, insert_event, Env, update_jobs, insert_job,
  insert_attempt_row, op_insert_attempt,
}
use agent_fox.Jobs.Rows.{Db, Job, Attempt, Event, of_job, EventData, is_job}

pub record HasNumbers (db : Db) : Type 0 where
  pub at : (id : String) → NumberedFrom (of_job id) (λ a. a.n) 0 db.attempts

pub update_jobs-HasNumbers :
    (test : Job → Bool) (f : Job → Job) → Keeps HasNumbers (update_jobs test f)
update_jobs-HasNumbers test f = record {
  at = λ t h. update_jobs-elim test f t (λ n db. HasNumbers db) λ holds. record { at = h.at };
}

pub update_attempts-HasNumbers :
    (test : Attempt → Bool) (f : Attempt → Attempt)
    → ((a : Attempt) → (f a).job_id ≡ a.job_id)
    → ((a : Attempt) → (f a).n ≡ a.n)
    → Keeps HasNumbers (update_attempts test f)
unfolding update_attempts
update_attempts-HasNumbers test f same number = record {
  at = λ t h. record {
    at = λ id.
        NumberedFrom-update (of_job id) (λ a. a.n) test f 0 t.db.attempts
          (λ a. (ap (λ k. (k == id)) (same a), number a)) (h.at id);
  };
}

insert_event_row-HasNumbers : (e : Event) → Keeps HasNumbers (insert_event_row e)
unfolding insert_event_row
insert_event_row-HasNumbers e = record {
  at = λ t h. elim (Bool-cases (exists_where (is_job e.job_id) t.db.jobs)) [
    | inl g ↦ rw g (record { at = h.at })
    | inr g ↦ rw g tt
  ];
}

pub emit-HasNumbers :
    (env : Env) (id : String) (n : ℕ) (body : EventData) → Keeps HasNumbers (emit env id n body)
unfolding emit insert_event
emit-HasNumbers env id n body = search (keeps_rules, insert_event_row-HasNumbers) depth 12

pub delete_events-HasNumbers : (id : String) → Keeps HasNumbers (delete_events id)
unfolding delete_events
delete_events-HasNumbers id = record { at = λ t h. record { at = h.at } }

pub delete_attempts-HasNumbers : (id : String) → Keeps HasNumbers (delete_attempts id)
unfolding delete_attempts
delete_attempts-HasNumbers id = record { at = λ t h. record { at = λ k. kept t.db h k } }
  where
    kept :
        (db : Db)
        → HasNumbers db
        → (k : String) → NumberedFrom (of_job k) (λ a. a.n) 0 (delete_where (of_job id) db.attempts)
    kept db h k = elim (Bool-cases (id == k)) [
      | inl e ↦
          subst (λ i. NumberedFrom (of_job k) (λ a. a.n) 0 (delete_where (of_job i) db.attempts))
            (sym ((==_iff id k).0 e)) (NumberedFrom-delete (of_job k) (λ a. a.n) 0 db.attempts)
      | inr apart ↦
          NumberedFrom-delete_apart (of_job k) (λ a. a.n) (of_job id) 0 db.attempts
            (λ a e. rw ((==_iff a.job_id id).0 e) apart) (h.at k)
    ]

pub delete_job-HasNumbers : (id : String) → Keeps HasNumbers (delete_job id)
delete_job-HasNumbers id = record {
  at = λ t h. delete_job-elim id t HasNumbers λ a e. record { at = h.at };
}

-- An attempt that is inserted has the number after the last one of its job.
insert_attempt_row-next :
    (a : Attempt)
    → Triple
        (λ t. HasNumbers t.db × (a.n ≡ count_where (of_job a.job_id) t.db.attempts + 1))
        (insert_attempt_row a)
        (λ u t. HasNumbers t.db)
insert_attempt_row-next a = record {
  at = λ t h. insert_attempt_row-elim a t HasNumbers λ there fresh. record {
    at = λ id.
        NumberedFrom-append (of_job id) (λ b. b.n) 0 t.db.attempts a (h.0.at id)
          (λ o. omega (
            arith,
            h.1,
            ap (λ k. count_where (of_job k) t.db.attempts) ((==_iff a.job_id id).0 o),
          ));
  };
}

pub insert_attempt-next :
    (env : Env) (id : String) (n : ℕ) (trigger : Trigger) (answer : Option Answer)
    (notes : List String)
    → Triple
        (λ t. HasNumbers t.db × (n ≡ count_where (of_job id) t.db.attempts + 1))
        (insert_attempt env id n trigger answer notes)
        (λ u t. HasNumbers t.db)
unfolding insert_attempt
insert_attempt-next env id n trigger answer notes =
    Triple-seam _ env op_insert_attempt
      (Triple-read _ λ db. insert_attempt_row-next (new_attempt id n _ trigger answer notes))

-- A new job has no attempts.
pub insert_job-fresh :
    (j : Job)
    → Triple
        (λ t. IsSound t.db × HasNumbers t.db)
        (insert_job j)
        (λ u t. HasNumbers t.db × (1 ≡ count_where (of_job j.id) t.db.attempts + 1))
insert_job-fresh j = record {
  at = λ t h.
      insert_job-elim j t (λ db. HasNumbers db × (1 ≡ count_where (of_job j.id) db.attempts + 1))
        λ fresh holds. (record { at = h.1.at }, omega (arith, h.0.attempts_owned j.id fresh));
}

-- The number that a requeue takes.
pub next_number :
    (id : String) (db : Db)
    → HasNumbers db
    → max_where (of_job id) (λ a. a.n) db.attempts + 1 ≡ count_where (of_job id) db.attempts + 1
next_number id db h =
    omega (arith, max_where-NumberedFrom (of_job id) (λ a. a.n) 0 db.attempts (h.at id))
