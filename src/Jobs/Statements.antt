-- ===== src/Jobs/Statements.antt =====
-- What the statements of store.go that may fail do to the file, as eliminations of their results.
use agent_fox.Jobs.Retention.{delete_job}
use agent_fox.Jobs.Hoare.{Post}
use agent_fox.Table.{exists_where, update_where, count_where, delete_where}
use agent_fox.Prelude.{Bool, ℕ, ◌≡◌, true, false, ◌++◌, ◌∷◌, Bool-cases, [], inl, inr, String}
use agent_fox.Jobs.Rows.{Job, Attempt, Db, one_open, is_job, is_attempt, of_job, event_of}
use agent_fox.Jobs.Txn.{update_jobs, insert_attempt_row, insert_job, Tx}

pub update_jobs-elim :
    (test : Job → Bool) (f : Job → Job) (t : Tx) (Q : ℕ → Db → Type 0)
    → (one_open (update_where test f t.db.jobs) ≡ true
        → Q (count_where test t.db.jobs) (record t.db { jobs = update_where test f t.db.jobs }))
    → Post (λ n u. Q n u.db) (update_jobs test f t)
unfolding update_jobs
update_jobs-elim test f t Q h = elim (Bool-cases (one_open (update_where test f t.db.jobs))) [
  | inl e ↦ rw e (h e)
  | inr e ↦ rw e tt
]

pub insert_attempt_row-elim :
    (a : Attempt) (t : Tx) (Q : Db → Type 0)
    → (exists_where (is_job a.job_id) t.db.jobs ≡ true
        → exists_where (is_attempt a.job_id a.n) t.db.attempts ≡ false
        → Q (record t.db { attempts = t.db.attempts ++ a ∷ [] }))
    → Post (λ u v. Q v.db) (insert_attempt_row a t)
unfolding insert_attempt_row
insert_attempt_row-elim a t Q h = elim (Bool-cases (exists_where (is_job a.job_id) t.db.jobs)) [
  | inl e ↦ elim (Bool-cases (exists_where (is_attempt a.job_id a.n) t.db.attempts)) [
    | inl g ↦ rw (e, g) tt
    | inr g ↦ rw (e, g) (h e g)
  ]
  | inr e ↦ rw e tt
]

pub insert_job-elim :
    (j : Job) (t : Tx) (Q : Db → Type 0)
    → (exists_where (is_job j.id) t.db.jobs ≡ false
        → one_open (t.db.jobs ++ j ∷ []) ≡ true
        → Q (record t.db { jobs = t.db.jobs ++ j ∷ [] }))
    → Post (λ u v. Q v.db) (insert_job j t)
unfolding insert_job
insert_job-elim j t Q h = elim (Bool-cases (exists_where (is_job j.id) t.db.jobs)) [
  | inl e ↦ rw e tt
  | inr e ↦ elim (Bool-cases (one_open (t.db.jobs ++ j ∷ []))) [
    | inl g ↦ rw (e, g) (h e g)
    | inr g ↦ rw (e, g) tt
  ]
]

pub delete_job-elim :
    (id : String) (t : Tx) (Q : Db → Type 0)
    → (exists_where (of_job id) t.db.attempts ≡ false
        → exists_where (event_of id) t.db.events ≡ false
        → Q (record t.db { jobs = delete_where (is_job id) t.db.jobs }))
    → Post (λ u v. Q v.db) (delete_job id t)
unfolding delete_job
delete_job-elim id t Q h = elim (Bool-cases (exists_where (of_job id) t.db.attempts)) [
  | inl e ↦ rw e tt
  | inr e ↦ elim (Bool-cases (exists_where (event_of id) t.db.events)) [
    | inl g ↦ rw (e, g) tt
    | inr g ↦ rw (e, g) (h e g)
  ]
]
