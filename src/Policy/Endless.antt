-- ===== src/Policy/Endless.antt =====
-- When the loop of count of internal/policy/expand.go ends: it is at its first int again after as
-- many rounds as there are ints.
use agent_fox.Policy.Sequence.{count_up, count_down}
use mathlib.Core.Option
use agent_fox.Policy.Integers.{Int64, modulus}
use agent_fox.Prelude.{true, false, zero, suc, none, some, [], Bool, ℕ, Option, ◌+◌, List, ◌%◌, ◌∷◌}

module _ {ℓ} {A : Type ℓ} (test : A → Bool) (next : A → A) where
  -- A loop that lists what it is at while the test holds, in so many rounds.
  unfoldable listed : ℕ → A → Option (List A)
  listed zero n = none
  listed (suc rounds) n = elim (test n) [
    | true ↦ Option.map (λ ns. n ∷ ns) (listed rounds (next n))
    | false ↦ some []
  ]

  unfoldable after : ℕ → A → A
  after zero n = n
  after (suc k) n = after k (next n)

-- The step of a loop of ints.
abbrev move : ℕ → Int64 → Int64
move c n = (n + c) % modulus

abbrev loop_of : Bool → ℕ → Int64 → Int64 → Int64 → Option (List Int64)
loop_of downwards rounds to step n = elim downwards [
  | true ↦ count_down rounds to step n
  | false ↦ count_up rounds to step n
]
