-- ===== src/Jobs/Document/Hub.antt =====
-- What the document of a job shows of the hub, after any calls of the layer.
use agent_fox.Jobs.Invariant.Fitting.{run_calls_fit}
use agent_fox.Jobs.Layer.{Call, run_calls, new_world}
use agent_fox.Jobs.Txn.{Env}
use mathlib.Core.Option
use agent_fox.Jobs.Store.{state_in}
use agent_fox.Jobs.Invariant.View.{fits, state_of, running_count, queued_count}
use mathlib.Core.Bool.{Bool}
use agent_fox.Jobs.Model.{State}
use Prim.Native.Nat.{ℕ}
use agent_fox.Jobs.Retention.{is_running_of}
use agent_fox.Jobs.Rows.{Attempt, attempt_running, of_job, Job, Db, is_job}
use agent_fox.Prelude.{
  Option, List, String, true, is_some, ◌≡◌, some, ◌≤◌, arith, ◌∷◌, none, [], refl, if◌then◌else◌,
  Option-cases, inl, inr, ap, ◌∙◌, subst,
}
use agent_fox.Jobs.Document.{
  last_where, select_where, List, Attempt, String, true, is_some, attempt_running, hub_of, of_job,
  some, ◌∷◌, State, build_doc, Usage, Job, Doc, usage_sum, doc_of, attempt_docs, Db, select_first,
  is_job,
}
use agent_fox.Table.{count_where, select_where, select_first}

running_rows :
    (id : String) (as_ : List Attempt)
    → count_where (λ a. attempt_running a.state) (select_where (of_job id) as_)
      ≡ count_where (is_running_of id) as_
unfolding count_where select_where
running_rows id [] = refl
running_rows id (a ∷ as_) = ground (arith, running_rows id as_)

last_running :
    (as_ : List Attempt) {a : Attempt}
    → last_where (λ b. true) as_ ≡ some a
    → attempt_running a.state ≡ true
    → 1 ≤ count_where (λ b. attempt_running b.state) as_
unfolding last_where count_where
last_running [] h r = absurd (ground (arith, h))
last_running (b ∷ as_) {a} h r = elim (Option-cases (last_where (λ c. true) as_)) [
  | inl e ↦ ground (arith, h, e, r)
  | inr (c, e) ↦
      let same : c ≡ a = ground (arith, h, e) in
      ground (arith, last_running as_ {a = c} e (ap (λ x. attempt_running x.state) same ∙ r))
]

hub_running :
    (o : Option Attempt)
    → is_some (hub_of o) ≡ true
    → (a : Attempt) × (o ≡ some a) × (attempt_running a.state ≡ true)
hub_running none h = absurd (ground (arith, h))
hub_running (some a) h = (a, refl, ground (arith, h))

fits_runs :
    (s : State) (q r : ℕ)
    → fits (some s) q r ≡ true
    → 1 ≤ r
    → state_in s (State.running ∷ State.cancelled ∷ []) ≡ true
fits_runs s q r f l = ground arith

-- The hub and the state of a document that is made.
build_doc-hub :
    (decode : String → Option Usage) (j : Job) (as_ : List Attempt) (b : Bool) (doc : Doc)
    → build_doc decode j as_ b ≡ some doc
    → (doc.hub ≡ hub_of (last_where (λ a. true) as_)) × (doc.state ≡ j.state)
unfolding build_doc
build_doc-hub decode j as_ b doc h = elim (Option-cases (usage_sum decode as_)) [
  | inl e ↦ absurd (ground (arith, h, e))
  | inr (total, e) ↦ elim (Option-cases (if b then attempt_docs decode as_ else some [])) [
    | inl g ↦ absurd (ground (arith, h, e, g))
    | inr (docs, g) ↦ (ground (arith, h, e, g), ground (arith, h, e, g))
  ]
]

doc_of-job :
    (decode : String → Option Usage) (id : String) (b : Bool) (db : Db) (doc : Doc)
    → doc_of decode id b db ≡ some doc
    → (j : Job) × (select_first (is_job id) db.jobs ≡ some j)
      × (build_doc decode j (select_where (of_job id) db.attempts) b ≡ some doc)
unfolding doc_of
doc_of-job decode id b db doc h = elim (Option-cases (select_first (is_job id) db.jobs)) [
  | inl e ↦ absurd (ground (arith, h, e))
  | inr (j, e) ↦ (j, e, ground (arith, h, e))
]

hub_state :
    (decode : String → Option Usage) (id : String) (b : Bool) (db : Db) (doc : Doc)
    → fits (state_of id db) (queued_count id db) (running_count id db) ≡ true
    → doc_of decode id b db ≡ some doc
    → is_some doc.hub ≡ true
    → state_in doc.state (State.running ∷ State.cancelled ∷ []) ≡ true
unfolding state_of running_count
hub_state decode id b db doc f h shown =
    let (j, ej, made) = doc_of-job decode id b db doc h in
    let (eh, es) = build_doc-hub decode j (select_where (of_job id) db.attempts) b doc made in
    let (a, ea, runs) =
      hub_running (last_where (λ a. true) (select_where (of_job id) db.attempts))
        (subst (λ o. is_some o ≡ true) eh shown) in
    let one = last_running (select_where (of_job id) db.attempts) {a = a} ea runs in
    rw es (
      fits_runs j.state (queued_count id db) (count_where (is_running_of id) db.attempts)
        (subst
          (λ o.
            fits (Option.map (λ i. i.state) o) (queued_count id db)
              (count_where (is_running_of id) db.attempts)
            ≡ true)
          ej f)
        (subst (λ n. 1 ≤ n) (running_rows id db.attempts) one))

-- After any calls of the layer on a new state file, in any order and with any faults of the store, a
-- document that shows a session, a run or a sandbox of the hub is that of a job that is running, or
-- of one that was cancelled.
pub run_calls_hub :
    (cs : List (Env × Call)) (decode : String → Option Usage) (id : String) (b : Bool) (doc : Doc)
    → doc_of decode id b (run_calls new_world cs).db ≡ some doc
    → is_some doc.hub ≡ true
    → state_in doc.state (State.running ∷ State.cancelled ∷ []) ≡ true
run_calls_hub cs decode id b doc h shown =
    hub_state decode id b (run_calls new_world cs).db doc (run_calls_fit cs id) h shown
