-- ===== src/Jobs/Invariant/Deleting.antt =====
-- The deletes of the purge (retain.go) keep the keys of the tables.
use agent_fox.Table.Counting.{count_where-delete-le, count_where-exists}
use agent_fox.Table.Numbering.{NumberedFrom, NumberedFrom-delete, NumberedFrom-delete_apart}
use agent_fox.Jobs.Rows.{Job, one_open, Db, is_job, of_job, event_of, clashes}
use agent_fox.Jobs.Retention.{delete_events, delete_attempts, delete_job}
use agent_fox.Table.{exists_where, delete_where}
use agent_fox.Jobs.Hoare.{Keeps}
use agent_fox.Jobs.Invariant.Sound.{IsSound}
use agent_fox.Prelude.{
  String, ◌==◌, List, ◌≡◌, false, true, arith, ==_iff, String_Eq, Bool, ◌∷◌, Bool-cases, inl, inr,
  sym, ◌∙◌, [], refl,
}

-- A key is not two.
apart : (k id x : String) → (k == id) ≡ false → (x == id) ≡ true → (x == k) ≡ false
apart k id x other e = ground (arith, ==_iff k id, ==_iff x id, ==_iff x k)

pub delete_events-IsSound : (id : String) → Keeps IsSound (delete_events id)
unfolding delete_events
delete_events-IsSound id = record {
  at = λ t h. record {
    keys = h.keys;
    index = h.index;
    attempts_owned = h.attempts_owned;
    events_owned = λ k e.
        omega
          (arith, count_where-delete-le (event_of k) (event_of id) t.db.events, h.events_owned k e);
    seqs = λ k. numbered k t.db (h.seqs k);
  };
}
  where
    numbered :
        (k : String) (db : Db)
        → NumberedFrom (event_of k) (λ e. e.seq) 0 db.events
        → NumberedFrom (event_of k) (λ e. e.seq) 0 (delete_where (event_of id) db.events)
    numbered k db h = elim (Bool-cases (k == id)) [
      | inl e ↦ rw ((==_iff k id).0 e) (NumberedFrom-delete (event_of id) (λ x. x.seq) 0 db.events)
      | inr e ↦
          NumberedFrom-delete_apart (event_of k) (λ x. x.seq) (event_of id) 0 db.events
            (λ x o. apart k id x.job_id e o) h
    ]

pub delete_attempts-IsSound : (id : String) → Keeps IsSound (delete_attempts id)
unfolding delete_attempts
delete_attempts-IsSound id = record {
  at = λ t h. record {
    keys = h.keys;
    index = h.index;
    attempts_owned = λ k e.
        omega
          (arith, count_where-delete-le (of_job k) (of_job id) t.db.attempts, h.attempts_owned k e);
    events_owned = h.events_owned;
    seqs = h.seqs;
  };
}

exists-delete :
    (p t : Job → Bool) (js : List Job)
    → exists_where p js ≡ false
    → exists_where p (delete_where t js) ≡ false
unfolding exists_where delete_where
exists-delete p t [] h = refl
exists-delete p t (j ∷ js) h = ground (arith, exists-delete p t js)

one_open-delete :
    (t : Job → Bool) (js : List Job) → one_open js ≡ true → one_open (delete_where t js) ≡ true
unfolding one_open delete_where
one_open-delete t [] h = refl
one_open-delete t (j ∷ js) h = ground (arith, one_open-delete t js, exists-delete (clashes j) t js)

exists-delete_apart :
    (k id : String) (js : List Job)
    → (k == id) ≡ false
    → exists_where (is_job k) (delete_where (is_job id) js) ≡ exists_where (is_job k) js
unfolding exists_where delete_where
exists-delete_apart k id [] h = refl
exists-delete_apart k id (j ∷ js) h =
    ground (arith, exists-delete_apart k id js h, apart k id j.id h)

pub deleted_job-IsSound :
    (id : String) (db : Db)
    → IsSound db
    → exists_where (of_job id) db.attempts ≡ false
    → exists_where (event_of id) db.events ≡ false
    → IsSound (record db { jobs = delete_where (is_job id) db.jobs })
deleted_job-IsSound id db h no_attempts no_events = record {
  keys = λ k. omega (arith, count_where-delete-le (is_job k) (is_job id) db.jobs, h.keys k);
  index = one_open-delete (is_job id) db.jobs h.index;
  attempts_owned = λ k e. elim (Bool-cases (k == id)) [
    | inl same ↦ rw ((==_iff k id).0 same) (count_where-exists (of_job id) db.attempts no_attempts)
    | inr other ↦ h.attempts_owned k (sym (exists-delete_apart k id db.jobs other) ∙ e)
  ];
  events_owned = λ k e. elim (Bool-cases (k == id)) [
    | inl same ↦ rw ((==_iff k id).0 same) (count_where-exists (event_of id) db.events no_events)
    | inr other ↦ h.events_owned k (sym (exists-delete_apart k id db.jobs other) ∙ e)
  ];
  seqs = h.seqs;
}

pub delete_job-IsSound : (id : String) → Keeps IsSound (delete_job id)
unfolding delete_job
delete_job-IsSound id = record { at = λ t h. ground (arith, deleted_job-IsSound id t.db h) }
