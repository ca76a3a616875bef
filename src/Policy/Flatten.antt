-- ===== src/Policy/Flatten.antt =====
-- flatten and runs of internal/policy/policy.go: every command that a line runs. The reader of a
-- line (parse) is a parameter, and none is its error.
use mathlib.Core.Option
use agent_fox.Policy.Prefix.{size}
use agent_fox.Policy.Segments.{Segment, Command, embedded, new_segment}
use agent_fox.Policy.Text.{Word}
use agent_fox.Prelude.{ℕ, List, Option, some, none, ◌+◌, [], suc, ◌∷◌, map, ◌++◌, zero}

abbrev pub max_depth : ℕ
max_depth = 64

-- A command, and the ones of commands that are read in turn.
unfoldable pub together {ℓ} : {A : Type ℓ} → List (Option (List A)) → Option (List A)
together [] = some []
together (none ∷ more) = none
together (some xs ∷ more) = Option.map (λ ys. xs ++ ys) (together more)

abbrev pub script_segments : (Word → Option (List Segment)) → Option Word → Option (List Segment)
script_segments nested none = some []
script_segments nested (some script) = nested script

-- runs, where find may execute find in at most so many rounds; nested reads a script.
unfoldable pub runs : (Word → Option (List Segment)) → ℕ → Segment → Option (List Segment)
runs nested zero s = none
runs nested (suc rounds) s = together (
    some (s ∷ []) ∷ (map (runs nested rounds) (embedded s) ++ script_segments nested s.script ∷ []))

abbrev pub rounds_of : Segment → ℕ
rounds_of s = size s.args + 1

abbrev runs_all : (Word → Option (List Segment)) → Segment → Option (List Segment)
runs_all nested s = runs nested (rounds_of s) s

-- flatten, at max_depth + 1 less the depth.
unfoldable pub flatten : (Word → Option (List Command)) → ℕ → Word → Option (List Segment)
flatten parse zero src = none
flatten parse (suc left) src = elim (parse src) [
  | none ↦ none
  | some cmds ↦ together (map (λ c. runs_all (flatten parse left) (new_segment c)) cmds)
]
