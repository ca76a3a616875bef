-- ===== src/Gate.antt =====
-- internal/checks/compare.go: the comparison of two gate results, check by check. The stored
-- results (loadResult) are a parameter, and an id is the list of its code points.
pub mod Verdicts
mod Tests
use agent_fox.Table.{exists_where, select_where}
use agent_fox.Prelude.{
  String, List, Bool, ℕ, ◌==◌, ◌∷◌, true, leb, ◌&&◌, map, Option, if◌then◌else◌, String_Eq, false,
  [], ◌||◌, length, not, is_empty, none, ℕ_Eq, some,
}

pub record Check : Type 0 where
  pub name : String
  pub status : String

-- Result, as far as the comparison reads it.
pub record GateResult : Type 0 where
  pub id : List ℕ
  pub passed : Bool
  pub checks : List Check

pub data RowVerdict : Type 0 where
  pass pass_was_already_failing regressed still_failing : RowVerdict

-- The verdict of a comparison: unverified, that of a row, or none where no row has one.
pub data Verdict : Type 0 where
  unverified no_verdict : Verdict
  of_rows : RowVerdict → Verdict

pub record Side : Type 0 where
  pub id : List ℕ
  pub passed : Bool

pub record Row : Type 0 where
  pub name : String
  pub before : String
  pub after : String
  pub verdict : RowVerdict

pub record Comparison : Type 0 where
  pub before : Side
  pub after : Side
  pub verdict : Verdict
  pub landable : Bool
  pub rows : List Row

-- UsageError: an id that names no stored result, or the names of the checks that only one of the
-- results has.
pub data UsageError : Type 0 where
  no_result : String → List ℕ → UsageError
  not_the_same : List String → List String → UsageError

pub data Compared : Type 0 where
  compared : Comparison → Compared
  refused : UsageError → Compared

-- rowVerdict
abbrev pub row_verdict : Bool → Bool → RowVerdict
row_verdict true true = pass
row_verdict false true = pass_was_already_failing
row_verdict true false = regressed
row_verdict false false = still_failing

abbrev pub passes : String → Bool
passes status = status == "pass"

-- statusAfter[name]: the status of the last check of the name, "" for none.
unfoldable pub status_after : String → List Check → String
status_after name [] = ""
status_after name (c ∷ cs) =
    let later = status_after name cs in
    if exists_where (λ d. d.name == name) cs then later else if c.name == name then c.status else ""

abbrev pub row_of : List Check → Check → Row
row_of after c = record {
  name = c.name;
  before = c.status;
  after = status_after c.name after;
  verdict = row_verdict (passes c.status) (passes (status_after c.name after));
}

abbrev pub verdict_eq : RowVerdict → RowVerdict → Bool
verdict_eq pass pass = true
verdict_eq pass_was_already_failing pass_was_already_failing = true
verdict_eq regressed regressed = true
verdict_eq still_failing still_failing = true
verdict_eq _ _ = false

abbrev pub seen : RowVerdict → List Row → Bool
seen v rows = exists_where (λ r. verdict_eq r.verdict v) rows

abbrev pub verdict_order : List RowVerdict
verdict_order = regressed ∷ still_failing ∷ pass_was_already_failing ∷ pass ∷ []

-- The loop over verdictOrder.
unfoldable pub first_seen : List RowVerdict → List Row → Verdict
first_seen [] rows = no_verdict
first_seen (v ∷ vs) rows = let rest = first_seen vs rows in if seen v rows then of_rows v else rest

abbrev pub landable_verdict : Verdict → Bool
landable_verdict (of_rows pass) = true
landable_verdict (of_rows pass_was_already_failing) = true
landable_verdict _ = false

-- idPattern: twelve hexadecimal digits.
abbrev pub hex_digit : ℕ → Bool
hex_digit c = (leb b'0' c && leb c b'9') || (leb b'a' c && leb c b'f')

abbrev pub all_hex : List ℕ → Bool
all_hex [] = true
all_hex (c ∷ cs) = hex_digit c && all_hex cs

abbrev pub is_gate_id : List ℕ → Bool
is_gate_id id = all_hex id && length id == 12

-- sameChecks
abbrev pub names : List Check → List String
names cs = map (λ c. c.name) cs

abbrev pub only : List Check → List Check → List String
only from other = names (select_where (λ c. not (exists_where (λ d. d.name == c.name) other)) from)

unfoldable pub same_checks : List Check → List Check → Option UsageError
same_checks before after =
    if is_empty (only before after) && is_empty (only after before)
    then none
    else some (not_the_same (only before after) (only after before))

-- resolve
unfoldable pub resolve : (List ℕ → Option GateResult) → List ℕ → Option GateResult
resolve load id = if is_gate_id id then load id else none

abbrev side : GateResult → Side
side r = record { id = r.id; passed = r.passed }

-- Compare, of the two results that were found.
unfoldable pub compare_results : GateResult → GateResult → Compared
compare_results b a =
    if is_empty b.checks || is_empty a.checks
    then compared (record {
      before = side b;
      after = side a;
      verdict = unverified;
      landable = false;
      rows = [];
    })
    else elim (same_checks b.checks a.checks) [
      | some e ↦ refused e
      | none ↦
          let rows = map (row_of a.checks) b.checks in
          compared (record {
            before = side b;
            after = side a;
            verdict = first_seen verdict_order rows;
            landable = landable_verdict (first_seen verdict_order rows);
            rows = rows;
          })
    ]

-- Compare
unfoldable pub compare_gates : (List ℕ → Option GateResult) → List ℕ → List ℕ → Compared
unfolding compare_results
compare_gates load before after = elim (resolve load before) [
  | none ↦ refused (no_result "before" before)
  | some b ↦ elim (resolve load after) [
    | none ↦ refused (no_result "after" after)
    | some a ↦ compare_results b a
  ]
]
