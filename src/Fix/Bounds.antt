-- ===== src/Fix/Bounds.antt =====
-- How many rounds RunLoop of internal/fix/loop.go makes, and that it ends.
use Prim.Native.Nat.{ℕ, ◌+◌}
use agent_fox.Fix.{
  ends, LoopResult, Params, after_round, Running, Bool, RoundFacts, Next, Option, ends, Failure,
  goes_on, RoundEnd, round_failed, submitted, Measured, Submission, after_submission, after_measure,
  asked, break_with, loop_round, not_measured, reported, not, measured, continue, called, synced,
  nat_eq, run_from, run_loop, CostSource, start,
}
use agent_fox.Prelude.{
  true, false, zero, suc, none, some, refl, inl, inr, Bool, ◌≡◌, ◌≤◌, Option, ◌⊎◌, ◌<◌, arith,
  Bool-cases, not, ◌&&◌, ◌-◌, nat_eq, nat_eq_iff, if◌then◌else◌, subst,
}

-- What a round comes to: E of a result, or I of what the next round starts from.
abbrev pub NextIs {ℓ} : (LoopResult → Type ℓ) → (Running → Type ℓ) → Next → Type ℓ
NextIs E I (ends x) = E x
NextIs E I (goes_on r) = I r

abbrev pub RoundsWithin : Params → ℕ → Running → Type 0
RoundsWithin p n r =
    (r.rounds ≡ n) × (r.rounds ≤ r.used) × ((r.rounds ≤ 1) ⊎ (r.rounds ≤ p.max_turns))

abbrev EndsWithin : Params → LoopResult → Type 0
EndsWithin p x = (x.at_end.rounds ≤ 1) ⊎ (x.at_end.rounds ≤ p.max_turns)

after_measure_within :
    (n : ℕ) (p : Params) (w : RoundFacts) (o : Measured) (r : Running)
    → RoundsWithin p n r
    → NextIs (EndsWithin p) (RoundsWithin p n) (after_measure w o r)
unfolding after_measure
after_measure_within n p w (not_measured f) r h = h.2
after_measure_within n p w (measured m) r h = elim (Bool-cases m.lands) [
  | inl e ↦ rw e h.2
  | inr e ↦ rw e h
]

after_submission_within :
    (n : ℕ) (p : Params) (w : RoundFacts) (s : Submission) (r : Running)
    → RoundsWithin p n r
    → NextIs (EndsWithin p) (RoundsWithin p n) (after_submission w s r)
unfolding after_submission
after_submission_within n p w (asked q) r h = h.2
after_submission_within n p w (reported report) r h =
    after_measure_within n p w w.measuring (record r { report = some report }) h

after_round_within :
    (n : ℕ) (p : Params) (w : RoundFacts) (e : RoundEnd) (o : Option Failure) (r : Running)
    → RoundsWithin p n r
    → NextIs (EndsWithin p) (RoundsWithin p n) (after_round w e o r)
unfolding after_round
after_round_within n p w (round_failed f) o r h = elim (Bool-cases w.stopped_after) [
  | inl e ↦ rw e h.2
  | inr e ↦ rw e h.2
]
after_round_within n p w (submitted s) (some f) r h = h.2
after_round_within n p w (submitted s) none r h = after_submission_within n p w s r h

module _ (E : LoopResult → Type 0) (I : Running → Type 0) where
  pub NextIs-if :
      (b : Bool) (x y : Next)
      → (b ≡ true → NextIs E I x)
      → (b ≡ false → NextIs E I y)
      → NextIs E I (if b then x else y)
  NextIs-if true x y hx hy = hx refl
  NextIs-if false x y hx hy = hy refl

  pub synced_case :
      (o : Option Failure) (r : Running) (next : Next)
      → ((f : Failure) → NextIs E I (break_with f r))
      → NextIs E I next
      → NextIs E I (elim o [ some f ↦ break_with f r | none ↦ next ])
  synced_case (some f) r next broken h = broken f
  synced_case none r next broken h = h

pub continue_turns :
    (cost_left : Bool) (turns : ℕ) (left : Option ℕ) (baseline : ℕ)
    → continue cost_left turns left baseline ≡ true
    → 1 ≤ turns
unfolding continue
continue_turns cost_left turns left baseline h = ground (arith, h)

-- A turn is left where a round starts that is not the first.
pub turns_left :
    (p : Params) (first : Bool) (w : RoundFacts) (r : Running)
    → (not first && not (continue w.cost_left (p.max_turns - r.used) w.left p.baseline)) ≡ false
    → (first ≡ true) ⊎ (r.used < p.max_turns)
turns_left p true w r h = inl refl
turns_left p false w r h =
    let on : continue w.cost_left (p.max_turns - r.used) w.left p.baseline ≡ true =
      ground (arith, h) in
    inr (omega (arith, continue_turns w.cost_left (p.max_turns - r.used) w.left p.baseline on))

loop_round_within :
    (n : ℕ) (p : Params) (first : Bool) (w : RoundFacts) (r : Running)
    → 1 ≤ w.turns
    → (first ≡ true → n ≡ 0)
    → RoundsWithin p n r
    → NextIs (EndsWithin p) (RoundsWithin p (n + 1)) (loop_round p first w r)
unfolding loop_round
loop_round_within n p first w r turns new h = elim (Bool-cases w.stopped_before) [
  | inl e ↦ rw e h.2
  | inr e ↦
      elim (Bool-cases
        (not first && not (continue w.cost_left (p.max_turns - r.used) w.left p.baseline))) [
          | inl e' ↦ rw (e, e') h.2
          | inr e' ↦
              let started : RoundsWithin p (n + 1) (called p w r) =
                elim (turns_left p first w r e') [
                  | inl is_first ↦ (
                    omega (arith, h.0),
                    omega (arith, h.1, turns),
                    inl (omega (arith, new is_first, h.0)),
                  )
                  | inr left ↦ (
                    omega (arith, h.0),
                    omega (arith, h.1, turns),
                    inr (omega (arith, h.1, left)),
                  )
                ] in
              rw (e, e')
                (synced_case (EndsWithin p) (RoundsWithin p (n + 1)) (synced first w.sync_failure) r
                  _ (λ f. h.2)
                  (after_round_within (n + 1) p w w.round_end w.write_failure (called p w r)
                    started))
        ]
]

-- What a run of rounds comes to, by an invariant of the rounds.
module _ (p : Params) (world : ℕ → RoundFacts) (E : LoopResult → Type 0)
    (I : ℕ → Running → Type 0) where
  abbrev pub Keeps : Type 0
  Keeps =
      (n : ℕ) (r : Running) → I n r → NextIs E (I (n + 1)) (loop_round p (nat_eq n 0) (world n) r)

  pub run_from_ends :
      (rounds n : ℕ) (r : Running)
      → Keeps
      → ((k : ℕ) (q : Running) → I k q → k < n + rounds)
      → I n r
      → (x : LoopResult) × ((run_from rounds p world n r ≡ ends x) × E x)
  unfolding run_from
  run_from_ends zero n r keeps bound h = absurd (omega (arith, bound n r h))
  run_from_ends (suc rounds) n r keeps bound h =
      go (loop_round p (nat_eq n 0) (world n) r) (keeps n r h) λ r' h'.
        run_from_ends rounds (n + 1) r' keeps (λ k q i. let b = bound k q i in omega (arith, b)) h'
    where
      go :
          (next : Next)
          → NextIs E (I (n + 1)) next
          → ((r' : Running)
              → I (n + 1) r'
              → (x : LoopResult) × ((run_from rounds p world (n + 1) r' ≡ ends x) × E x))
          → (x : LoopResult) × ((elim next as (λ _. Next) [
            | ends result ↦ ends result
            | goes_on r' ↦ run_from rounds p world (n + 1) r'
          ]
                ≡ ends x)
              × E x)
      go (ends x) e later = (x, (refl, e))
      go (goes_on r') i later = later r' i

module _ (p : Params) (world : ℕ → RoundFacts) (E : LoopResult → Type 0)
    (I : ℕ → Running → Type 0) where
  -- The same without a bound, of the result or of what the run goes on with.
  pub run_from_keeps :
      (rounds n : ℕ) (r : Running)
      → Keeps p world E I
      → I n r
      → NextIs E (I (n + rounds)) (run_from rounds p world n r)
  unfolding run_from
  run_from_keeps zero n r keeps h = subst (λ k. I k r) (omega arith) h
  run_from_keeps (suc rounds) n r keeps h =
      go (loop_round p (nat_eq n 0) (world n) r) (keeps n r h) λ r' h'.
        subst (λ k. NextIs E (I k) (run_from rounds p world (n + 1) r')) (omega arith)
          (run_from_keeps rounds (n + 1) r' keeps h')
    where
      go :
          (next : Next)
          → NextIs E (I (n + 1)) next
          → ((r' : Running)
              → I (n + 1) r'
              → NextIs E (I (n + suc rounds)) (run_from rounds p world (n + 1) r'))
          → NextIs E (I (n + suc rounds)) (elim next as (λ _. Next) [
            | ends result ↦ ends result
            | goes_on r' ↦ run_from rounds p world (n + 1) r'
          ])
      go (ends y) e later = e
      go (goes_on r') i later = later r' i

-- Where every round uses a turn, RunLoop returns, within two more rounds than the run may have
-- turns; of these it has counted at most as many as the turns, or one.
pub run_loop_ends :
    (p : Params) (world : ℕ → RoundFacts) (state_rounds : ℕ) (sofar : CostSource) (rounds : ℕ)
    → ((n : ℕ) → 1 ≤ (world n).turns)
    → p.max_turns + 2 ≤ rounds
    → (x : LoopResult) × ((run_loop rounds p world state_rounds sofar ≡ ends x)
        × ((x.at_end.rounds ≤ 1) ⊎ (x.at_end.rounds ≤ p.max_turns)))
unfolding run_loop
run_loop_ends p world state_rounds sofar rounds turns enough =
    run_from_ends p world (EndsWithin p) (RoundsWithin p) rounds 0 (start state_rounds sofar)
      (λ n r h. loop_round_within n p (nat_eq n 0) (world n) r (turns n) (nat_eq_iff n 0).0 h)
      (λ k q h. ground (arith, h, enough)) (refl, omega arith, inl (omega arith))
