-- ===== src/Gate/Verdicts.antt =====
-- What the verdict of a comparison says of the checks.
use agent_fox.Gate.{
  compare_results, Bool, Check, GateResult, map, passes, RowVerdict, regressed, is_empty,
  Comparison, status_after, verdict_eq, ◌∷◌, row_of, still_failing, false, not,
  pass_was_already_failing, compared, pass, first_seen, true, verdict_order, landable_verdict, seen,
  of_rows, same_checks, none, UsageError, some, refused,
}
use agent_fox.Prelude.{
  refl, List, Bool, map, is_empty, ◌≡◌, ◌||◌, ◌∷◌, ◌&&◌, false, arith, not, [], true, refl,
  Option-cases, sym, ◌↔◌, inl, ◌∙◌, inr, none, some,
}
use agent_fox.Table.{exists_where}

exists_where-map :
    {A B : Type 0} (p : B → Bool) (f : A → B) (xs : List A)
    → exists_where p (map f xs) ≡ exists_where (λ x. p (f x)) xs
unfolding exists_where
exists_where-map p f [] = refl
exists_where-map p f (x ∷ xs) = ground (arith, exists_where-map p f xs)

module _ (after : List Check) where
  -- The check passes in the results after.
  abbrev pub passes_after : Check → Bool
  passes_after c = passes (status_after c.name after)

  abbrev has_verdict : RowVerdict → List Check → Bool
  has_verdict v cs = exists_where (λ c. verdict_eq (row_of after c).verdict v) cs

  -- A check that passed and does not now.
  regressed_check :
      (cs : List Check)
      → has_verdict regressed cs ≡ exists_where (λ c. passes c.status && not (passes_after c)) cs
  unfolding exists_where
  regressed_check [] = refl
  regressed_check (c ∷ cs) = ground (arith, regressed_check cs)

  -- A check that does not pass now is a regression or still fails.
  failing_check :
      (cs : List Check)
      → (has_verdict regressed cs || has_verdict still_failing cs)
        ≡ exists_where (λ c. not (passes_after c)) cs
  unfolding exists_where
  failing_check [] = refl
  failing_check (c ∷ cs) = ground (arith, failing_check cs)

  some_verdict :
      (cs : List Check)
      → is_empty cs ≡ false
      → ((has_verdict regressed cs || has_verdict still_failing cs)
          || (has_verdict pass_was_already_failing cs || has_verdict pass cs))
        ≡ true
  unfolding exists_where
  some_verdict [] h = absurd (ground (arith, h))
  some_verdict (c ∷ cs) h = ground arith

-- The comparison that Compare makes of two results of the same checks.
abbrev comparison_of : GateResult → GateResult → Comparison
comparison_of b a =
    let rows = map (row_of a.checks) b.checks in
    record {
      before = record { id = b.id; passed = b.passed };
      after = record { id = a.id; passed = a.passed };
      verdict = first_seen verdict_order rows;
      landable = landable_verdict (first_seen verdict_order rows);
      rows = rows;
    }

compared_inj : {c d : Comparison} → compared c ≡ compared d → c ≡ d
compared_inj e = cc

compare-same :
    (b a : GateResult)
    → (is_empty b.checks || is_empty a.checks) ≡ false
    → same_checks b.checks a.checks ≡ none
    → compare_results b a ≡ compared (comparison_of b a)
unfolding compare_results
compare-same b a has e = rw (has, e) refl

compare-other :
    (b a : GateResult) (u : UsageError)
    → (is_empty b.checks || is_empty a.checks) ≡ false
    → same_checks b.checks a.checks ≡ some u
    → compare_results b a ≡ refused u
unfolding compare_results
compare-other b a u has e = rw (has, e) refl

compare-rows :
    (b a : GateResult) (c : Comparison)
    → (is_empty b.checks || is_empty a.checks) ≡ false
    → compare_results b a ≡ compared c
    → c ≡ comparison_of b a
compare-rows b a c has h = elim (Option-cases (same_checks b.checks a.checks)) [
  | inl e ↦ compared_inj (sym h ∙ compare-same b a has e)
  | inr (u, g) ↦ let r = compare-other b a u has g in absurd (cc)
]

module _ (after : List Check) (cs : List Check) where
  seen_verdict : (v : RowVerdict) → seen v (map (row_of after) cs) ≡ has_verdict after v cs
  seen_verdict v = exists_where-map (λ r. verdict_eq r.verdict v) (row_of after) cs

  landable_rows :
      is_empty cs ≡ false
      → landable_verdict (first_seen verdict_order (map (row_of after) cs))
        ≡ not (exists_where (λ k. not (passes_after after k)) cs)
  unfolding first_seen
  landable_rows has =
      rw
        (
          sym (failing_check after cs),
          seen_verdict regressed,
          seen_verdict still_failing,
          seen_verdict pass_was_already_failing,
          seen_verdict pass,
        )
        (ground (arith, some_verdict after cs has))

  regressed_rows :
      (first_seen verdict_order (map (row_of after) cs) ≡ of_rows regressed)
      ↔ (exists_where (λ k. passes k.status && not (passes_after after k)) cs ≡ true)
  unfolding first_seen
  regressed_rows =
      rw
        (
          sym (regressed_check after cs),
          seen_verdict regressed,
          seen_verdict still_failing,
          seen_verdict pass_was_already_failing,
          seen_verdict pass,
        )
        (ground arith)

-- A comparison of two results that have checks is landable exactly if every check of the result
-- before passes in the result after, and its verdict is regressed exactly if a check that passed
-- before does not pass after.
pub compare_landable :
    (b a : GateResult) (c : Comparison)
    → (is_empty b.checks || is_empty a.checks) ≡ false
    → compare_results b a ≡ compared c
    → (c.landable ≡ not (exists_where (λ k. not (passes_after a.checks k)) b.checks))
      × ((c.verdict ≡ of_rows regressed)
          ↔ (exists_where (λ k. passes k.status && not (passes_after a.checks k)) b.checks ≡ true))
compare_landable b a c has h =
    let e = compare-rows b a c has h in
    rw e (landable_rows a.checks b.checks (ground (arith, has)), regressed_rows a.checks b.checks)
