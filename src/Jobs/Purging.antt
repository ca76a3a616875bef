-- ===== src/Jobs/Purging.antt =====
-- The jobs that the purge of internal/service/jobs/retain.go removes.
mod Tests
use agent_fox.Jobs.Invariant.Reachable.{run_calls-IsSound}
use agent_fox.Table.Counting.{exists_where-counted, count_where-exists}
use agent_fox.Table.Lookup.{count_where-select_first, both_left}
use agent_fox.Jobs.Layer.{Call, run_calls, new_world}
use mathlib.Core.Option
use agent_fox.Jobs.Invariant.Elsewhere.{purge-elsewhere}
use agent_fox.Jobs.Hoare.{run-Keeps}
use mathlib.Core.List.{List}
use mathlib.Core.Bool.{◌&&◌}
use agent_fox.Table.{exists_where}
use agent_fox.Jobs.Model.{State, finished}
use agent_fox.Jobs.Invariant.Sound.{IsSound}
use agent_fox.Jobs.Rows.{Db, Job, is_job}
use agent_fox.Jobs.Invariant.View.{state_of, running_count, Sees, queued_count}
use agent_fox.Jobs.Retention.{expired, purge, expired_row, is_running_of}
use agent_fox.Prelude.{
  refl, String, ℕ, Bool, ◌==◌, ◌≡◌, false, true, some, none, String_Eq, arith, sym, Bool-cases, ap,
  inr, ◌∙◌, inl, ==_iff,
}
use agent_fox.Jobs.Txn.{run, commit, ◌>>=◌, World, get_db, pure, Env}

purge_idle :
    (id : String) (cutoff : ℕ) (removed : Bool) (w : World)
    → expired id cutoff w.db ≡ false
    → (run (purge id cutoff removed) w).1.db ≡ w.db
unfolding run commit purge ◌>>=◌ get_db pure
purge_idle id cutoff removed w e = rw e refl

purge_other :
    (id k : String) (cutoff : ℕ) (removed : Bool) (w : World)
    → IsSound w.db
    → (id == k) ≡ false
    → state_of k (run (purge id cutoff removed) w).1.db ≡ state_of k w.db
purge_other id k cutoff removed w h apart =
    let any : Env = record { now = 0; fault = λ op. none } in
    let seen : Sees k (state_of k w.db) (queued_count k w.db) (running_count k w.db) w.db = record {
      sound = h;
      looks = record { state = refl; queued = refl; running = refl };
    } in
    (run-Keeps (Sees k (state_of k w.db) (queued_count k w.db) (running_count k w.db))
      (purge id cutoff removed) w (purge-elsewhere any id k apart cutoff removed) seen).looks.state

-- What the condition of the purge says of the one row of the job.
expired_state :
    (id : String) (cutoff : ℕ) (db : Db) (s : State)
    → IsSound db
    → expired id cutoff db ≡ true
    → state_of id db ≡ some s
    → (finished s ≡ true) × (running_count id db ≡ 0)
unfolding expired state_of running_count
expired_state id cutoff db s h e there =
    let c : Job → Bool = expired_row cutoff in
    let hit : exists_where (λ j. is_job id j && c j) db.jobs ≡ true = ground (arith, e) in
    let (j, ej, good) =
      count_where-select_first (is_job id) c db.jobs (h.keys id)
        (exists_where-counted (λ j. is_job id j && c j) db.jobs hit) in
    let same : j.state ≡ s = some_inj (sym (ap (λ o. Option.map (λ i. i.state) o) ej) ∙ there) in
    let fin : finished j.state ≡ true = both_left (finished j.state) _ good in
    let idle : exists_where (is_running_of id) db.attempts ≡ false = ground (arith, e) in
    (ap finished (sym same) ∙ fin, count_where-exists (is_running_of id) db.attempts idle)
  where
    some_inj : {a b : State} → some a ≡ some b → a ≡ b
    some_inj q = cc

-- In any state of the file that calls of the layer lead to: a job that a purge removes is the one
-- that it was asked for, and that job was finished and no attempt of it was running.
pub purged_at_rest :
    (cs : List (Env × Call)) (id k : String) (cutoff : ℕ) (removed : Bool) (s : State)
    → state_of k (run_calls new_world cs).db ≡ some s
    → state_of k (run (purge id cutoff removed) (run_calls new_world cs)).1.db ≡ none
    → (k ≡ id) × (finished s ≡ true) × (running_count id (run_calls new_world cs).db ≡ 0)
purged_at_rest cs id k cutoff removed s there gone =
    let w = run_calls new_world cs in
    let h = run_calls-IsSound cs in
    elim (Bool-cases (id == k)) [
      | inr apart ↦
          let kept = purge_other id k cutoff removed w h apart in
          absurd (lost (sym there ∙ sym kept ∙ gone))
      | inl same ↦
          let e : id ≡ k = (==_iff id k).0 same in
          elim (Bool-cases (expired id cutoff w.db)) [
            | inr idle ↦ absurd (
                lost (
                  sym there
                  ∙ ap (λ d. state_of k d) (sym (purge_idle id cutoff removed w idle))
                  ∙ gone))
            | inl x ↦
                let (f, r) =
                  expired_state id cutoff w.db s h x (ap (λ i. state_of i w.db) e ∙ there) in
                (sym e, f, r)
          ]
    ]
  where
    lost : {a : State} → some a ≡ none → ⊥
    lost q = cc
