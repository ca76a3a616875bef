-- ===== src/Jobs/Invariant/Counts.antt =====
-- What the attempts of each job are, over every call of the layer.
use agent_fox.Jobs.Layer.{finish_args, settle_args, Outcome}
use agent_fox.Jobs.Invariant.Ended.{IsSettled}
use agent_fox.Jobs.Ruling.{ruling}
use agent_fox.Jobs.Invariant.Sound.{empty-IsSound}
use agent_fox.Table.{count_where, select_first}
use agent_fox.Jobs.Model.{State, Envelope}
use agent_fox.Jobs.Hoare.{Post, Keeps, Triple, Triple-weaken, Triple-Keeps, Post-weaken}
use agent_fox.Jobs.Txn.{Result, M, Tx, err, ok}
use agent_fox.Jobs.Invariant.Own.{Fits, fitting}
use agent_fox.Jobs.Invariant.View.{state_of, fits, queued_count, running_count, Sees}
use agent_fox.Prelude.{
  String, Option, ℕ, ◌≡◌, true, none, ◌==◌, false, refl, Bool-cases, inl, List, subst, ==_iff, Bool,
  inr, String_Eq, arith, some,
}
use agent_fox.Jobs.Rows.{Db, empty_db, Attempt}

-- Every job has the open attempts that its state has it have.
pub record AllFit (db : Db) : Type 0 where
  pub at : (id : String) → Fits id db

Post-all :
    {A : Type 0} (Q : String → Db → Type 0) (r : Result (A × Tx))
    → ((k : String) → Post (λ a t. Q k t.db) r)
    → Post (λ a t. (k : String) → Q k t.db) r
Post-all Q (err e) h = tt
Post-all Q (ok (a, t)) h = h

module _ {A : Type 0} (id : String) (m : M A) where
  pub Keeps-AllFit :
      ((s : Option State) (q r : ℕ)
        → fits s q r ≡ true
        → Triple (λ t. Sees id s q r t.db) m (λ a t. Fits id t.db))
      → ((k : String) → (id == k) ≡ false → (s : Option State) (q r : ℕ) → Keeps (Sees k s q r) m)
      → Keeps AllFit m
  Keeps-AllFit own elsewhere = record {
    at = λ t h.
        Post-weaken (m t) (λ a u g. record { at = g })
          (Post-all (λ k db. Fits k db) (m t)
            λ k. elim (Bool-cases (id == k)) [
              | inl same ↦
                  subst (λ i. Post (λ a u. Fits i u.db) (m t)) ((==_iff id k).0 same)
                    (elim (h.at id) [ fitting {s = s} {q = q} {r = r} f v ↦ (own s q r f).at t v ])
              | inr apart ↦ elim (h.at k) [
                | fitting {s = s} {q = q} {r = r} f v ↦
                    Post-weaken (m t) (λ a u g. fitting f g) ((elsewhere k apart s q r).at t v)
              ]
            ]);
  }

  -- A statement that leaves what is seen of every job.
  pub Keeps-neutral :
      ((k : String) (s : Option State) (q r : ℕ) → Keeps (Sees k s q r) m) → Keeps AllFit m
  Keeps-neutral same =
      Keeps-AllFit
        (λ s q r f. Triple-weaken (λ t h. h) (λ a t h. fitting f h) (Triple-Keeps (same id s q r)))
        (λ k _ s q r. same k s q r)

pub empty-AllFit : AllFit empty_db
unfolding state_of queued_count running_count count_where select_first
empty-AllFit = record {
  at = λ id. fitting {s = none} {q = 0} {r = 0} refl (record {
    sound = empty-IsSound;
    looks = record { state = refl; queued = refl; running = refl };
  });
}

-- What the layer rules closes the attempt, and the job too unless the attempt is tried again.
pub ruling-IsSettled :
    (env : Envelope) (rows : List Attempt) (n limit : ℕ) (spent : Bool)
    → IsSettled (ruling env rows n limit spent)
unfolding ruling
ruling-IsSettled env rows n limit spent = record {
  attempt = ground arith;
  job = λ h. ground (arith, h);
}

pub finished-IsSettled :
    (db : Db) (id : String) (n : ℕ) (out : Outcome) (spent : Bool)
    → IsSettled (finish_args db id n out spent).verdict
unfolding finish_args
finished-IsSettled db id n out spent = ruling-IsSettled out.env _ n _ spent

pub cancelled-IsSettled :
    (id : String) (n : ℕ) (env : Envelope) (files_ok : Bool)
    → IsSettled (settle_args id n env files_ok).verdict
unfolding settle_args
cancelled-IsSettled id n env files_ok = record { attempt = refl; job = λ _. refl }

-- A job that is blocked and one that failed have no open attempt.
pub blocked_none :
    {s : Option State} (q r : ℕ) → fits s q r ≡ true → s ≡ some State.blocked → (q ≡ 0) × (r ≡ 0)
blocked_none q r f e =
    let f' : fits (some State.blocked) q r ≡ true = subst (λ x. fits x q r ≡ true) e f in
    (ground arith, ground arith)

pub failed_none :
    {s : Option State} (q r : ℕ) → fits s q r ≡ true → s ≡ some State.failed → (q ≡ 0) × (r ≡ 0)
failed_none q r f e =
    let f' : fits (some State.failed) q r ≡ true = subst (λ x. fits x q r ≡ true) e f in
    (ground arith, ground arith)
