-- ===== src/Jobs/Turns.antt =====
-- The plan of internal/service/jobs/store.go (Store.Plan): the turns of the attempts of a workspace.
use agent_fox.Table.{select_first}
use agent_fox.Jobs.Rows.{Db, Job, Attempt, is_job, is_attempt, job_active, attempt_open}
use agent_fox.Prelude.{
  String, ℕ, ◌≡◌, some, Option-cases, inl, inr, arith, sym, ◌∙◌, ==_iff, ap, String_Eq, ℕ_Eq, Bool,
  true,
}
use agent_fox.Jobs.Dispatch.{plan, disp_claim, first_of_workspace}

-- What a plan to claim rests on: the attempt is the first open one of the workspace of its job.
plan-first :
    (id : String) (n : ℕ) (db db' db'' : Db)
    → plan id n db db' db'' ≡ some disp_claim
    → (j : Job) × (f : Attempt) × (select_first (is_job id) db.jobs ≡ some j)
      × (first_of_workspace j.workspace db'' ≡ some f)
      × (f.job_id ≡ id)
      × (f.n ≡ n)
unfolding plan
plan-first id n db db' db'' h = elim (Option-cases (select_first (is_job id) db.jobs)) [
  | inl e ↦ absurd (ground (arith, h, e))
  | inr (j, e) ↦ elim (Option-cases (select_first (is_attempt id n) db'.attempts)) [
    | inl g ↦ absurd (ground (arith, h, e, g))
    | inr (a, g) ↦ elim (Option-cases (first_of_workspace j.workspace db'')) [
      | inl i ↦ absurd (ground (arith, h, e, g, i))
      | inr (f, i) ↦ (
        j,
        f,
        e,
        i,
        (==_iff f.job_id id).0 (ground (arith, h, e, g, i)),
        (==_iff f.n n).0 (ground (arith, h, e, g, i)),
      )
    ]
  ]
]

-- Of two attempts of jobs of one workspace, whose handlers are both told to claim, both are the
-- same attempt of the same job, where the last reads of the two plans are of the same file; the
-- reads of the jobs and of the attempts may be of other ones.
pub plan_claims_one :
    (a b : String) (n m : ℕ) (da da' db db' last : Db) {i j : Job}
    → select_first (is_job a) da.jobs ≡ some i
    → select_first (is_job b) db.jobs ≡ some j
    → i.workspace ≡ j.workspace
    → plan a n da da' last ≡ some disp_claim
    → plan b m db db' last ≡ some disp_claim
    → (a ≡ b) × (n ≡ m)
plan_claims_one a b n m da da' db db' last {i} {j} ei ej same pa pb =
    let (i', f, ei', fi, fa, fn) = plan-first a n da da' last pa in
    let (j', g, ej', gj, gb, gm) = plan-first b m db db' last pb in
    let ii : i ≡ i' = cc in
    let jj : j ≡ j' = cc in
    let fg : f ≡ g = cc in (sym fa ∙ ap (λ x. x.job_id) fg ∙ gb, sym fn ∙ ap (λ x. x.n) fg ∙ gm)

-- The job with the id is one of the workspace that is queued or running, and its attempt is open.
abbrev pub IsOpenIn : String → String → ℕ → Db → Type 0
IsOpenIn workspace id n db =
    (i : Job) × (b : Attempt) × (select_first (is_job id) db.jobs ≡ some i)
    × (select_first (is_attempt id n) db.attempts ≡ some b)
    × (i.workspace ≡ workspace)
    × (job_active i.state ≡ true)
    × (attempt_open b.state ≡ true)
