-- ===== src/Gate/Tests.antt =====
-- The comparison of gate results on concrete results, and the theorem at them.
use agent_fox.Gate.Verdicts.{passes_after, compare_landable}
use agent_fox.Table.{select_where, exists_where}
use agent_fox.Gate.{
  GateResult, Comparison, compare_results, compare_gates, Check, same_checks, resolve, [],
  select_where, not, none, of_rows, exists_where, refused, regressed, status_after, no_result,
  pass_was_already_failing, first_seen, compared, passes, true,
}
use agent_fox.Prelude.{String, false, ◌≡◌, ◌∷◌, [], not, none, ◌↔◌, refl, ◌&&◌, true}

abbrev check : String → String → Check
check name status = record { name = name; status = status }

abbrev before_it : GateResult
before_it = record {
  id = b'0' ∷ [];
  passed = false;
  checks = check "lint" "fail" ∷ check "test" "pass" ∷ [];
}

abbrev after_it : GateResult
after_it = record {
  id = b'1' ∷ [];
  passed = false;
  checks = check "test" "fail" ∷ check "lint" "pass" ∷ [];
}

abbrev between : Comparison
between = record {
  before = record { id = b'0' ∷ []; passed = false };
  after = record { id = b'1' ∷ []; passed = false };
  verdict = of_rows regressed;
  landable = false;
  rows =
      record { name = "lint"; before = "fail"; after = "pass"; verdict = pass_was_already_failing }
      ∷ record { name = "test"; before = "pass"; after = "fail"; verdict = regressed }
      ∷ [];
}

compared_between : compare_results before_it after_it ≡ compared between
unfolding compare_results same_checks select_where exists_where status_after first_seen
compared_between = refl

compare_landable_example :
    (false ≡ not (exists_where (λ k. not (passes_after after_it.checks k)) before_it.checks))
    × ((of_rows regressed ≡ of_rows regressed) ↔ (
        exists_where (λ k. passes k.status && not (passes_after after_it.checks k)) before_it.checks
        ≡ true))
compare_landable_example = compare_landable before_it after_it between refl compared_between

-- An id that is not one of a stored result is refused.
unknown_id :
    compare_gates (λ id. none) (b'g' ∷ []) (b'0' ∷ []) ≡ refused (no_result "before" (b'g' ∷ []))
unfolding compare_gates resolve
unknown_id = refl
