-- ===== src/Jobs/Refusing.antt =====
-- The claims of internal/service/jobs/store.go that are refused (Store.Claim).
mod Tests
use agent_fox.Jobs.Invariant.Moves.{Counted-elim, transition-Turned, Turned-if}
use agent_fox.Jobs.Invariant.Own.{claim_first}
use agent_fox.Jobs.Invariant.Reachable.{run_calls-IsSound}
use agent_fox.Jobs.Invariant.View.{state_of, Sees, queued_count, running_count}
use agent_fox.Jobs.Rows.{job_active}
use agent_fox.Jobs.Model.{State}
use agent_fox.Jobs.Layer.{Call, run_calls, new_world}
use agent_fox.Jobs.Hoare.{
  Triple, Triple-bind, run_elim, Post-ok, Triple-unless, Triple-seam, Triple-read, Triple-take,
  Triple-throw,
}
use agent_fox.Prelude.{List, String, ℕ, ◌≡◌, false, some, ◌∷◌, [], true, arith, ◌==◌, refl, ℕ_Eq}
use agent_fox.Jobs.Store.{claim, state_in}
use agent_fox.Jobs.Txn.{M, Tx, Env, Error, run, err, begin_tx, not_claimable, op_claim}

after_none : {A : Type 0} {m : M A} {Q : A → Tx → Type 0} → Triple (λ t. ⊥) m Q
after_none = record { at = λ t h. absurd h }

-- No claim of it has a result.
claim-none :
    (env : Env) (id : String) (n : ℕ) (s : State) (q r : ℕ)
    → job_active s ≡ false
    → Triple (λ t. Sees id (some s) q r t.db) (claim env id n) (λ d t. ⊥)
unfolding claim
claim-none env id n s q r rests = Triple-bind _ _ (claim_first env id n) λ c.
    Counted-elim λ p o rel. Triple-unless _ (c == 0) not_claimable λ some_handed.
      Triple-seam _ env op_claim (
        Triple-read _ λ db. Triple-take _ _ _ λ before e.
          Triple-bind _ _ (transition-Turned env id _ State.running) λ changed.
            Triple-bind _ _
              (Turned-if {Q = λ u t. ⊥} _ _ (λ b e g. absurd (active b e g)) (Triple-throw _)
                changed)
              λ u. after_none)
  where
    active :
        (b : State) → some s ≡ some b → state_in b (State.queued ∷ State.running ∷ []) ≡ true → ⊥
    active b e g = let same : s ≡ b = cc in ground (arith, rests, g, same)

-- In any state of the file that calls of the layer lead to, a claim of an attempt of a job that is
-- neither queued nor running is an error, and leaves the file and what was published as they were.
pub claim_refused :
    (cs : List (Env × Call)) (env : Env) (id : String) (n : ℕ) (s : State)
    → state_of id (run_calls new_world cs).db ≡ some s
    → job_active s ≡ false
    → (e : Error) × (run (claim env id n) (run_calls new_world cs)
        ≡ (err e, run_calls new_world cs))
claim_refused cs env id n s there rests =
    let w = run_calls new_world cs in
    let seen : Sees id (some s) (queued_count id w.db) (running_count id w.db) w.db = record {
      sound = run_calls-IsSound cs;
      looks = record { state = there; queued = refl; running = refl };
    } in
    run_elim (λ r. (e : Error) × (r ≡ (err e, w))) w (claim env id n) (λ e. (e, refl))
      (λ a t e. absurd (
        Post-ok (λ d u. ⊥) a t
          ((claim-none env id n s (queued_count id w.db) (running_count id w.db) rests).at
            (begin_tx w.db) seen)
          e))
