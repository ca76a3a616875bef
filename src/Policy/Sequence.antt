-- ===== src/Policy/Sequence.antt =====
-- The sequences {x..y} and {x..y..step} of a brace expansion: sequence, count and padded of
-- internal/policy/expand.go.
use agent_fox.Policy.Integers.{
  Int64, itoa, atoi, is_negative, quotient_reaches, zero_int, sub_int, neg_int, add_int, modulus,
}
use agent_fox.Policy.Text.{Word, trim_prefix, bytes, dash, drop, Words}
use agent_fox.Prelude.{
  ◌^◌, true, false, ℕ, ◌∷◌, Bool, Option, if◌then◌else◌, [], ◌-◌, nat_eq, List, suc, ltb, ◌||◌, leb,
  ◌&&◌, some, false, none, map, length, max, ◌+◌, zero, ◌++◌,
}
use mathlib.Core.Option

abbrev pub max_expansion_words : ℕ
max_expansion_words = 4096

abbrev pub max_expansion_bytes : ℕ
max_expansion_bytes = 2 ^ 20

-- endless: the loop has not ended in the rounds that it is given.
pub data Sequence : Type 0 where
  not_sequence too_long endless : Sequence
  is_sequence : Words → Sequence

-- strings.Split(inner, "..")
abbrev push_front : ℕ → Words → Words
push_front c [] = (c ∷ []) ∷ []
push_front c (w ∷ ws) = (c ∷ w) ∷ ws

unfoldable pub split_dots : Word → Words
split_dots [] = [] ∷ []
split_dots (c ∷ []) = (c ∷ []) ∷ []
split_dots (c ∷ d ∷ s) = elim (nat_eq c b'.' && nat_eq d b'.') [
  | true ↦ [] ∷ split_dots s
  | false ↦ push_front c (split_dots (d ∷ s))
]

-- padded
abbrev starts_zero : Word → Bool
starts_zero (c ∷ d ∷ s) = nat_eq c b'0'
starts_zero _ = false

unfoldable pub padded : Word → Bool
padded s = starts_zero (trim_prefix s (bytes "-"))

-- The loop of count, in at most so many rounds: none where it needs more.
unfoldable pub count_up : ℕ → Int64 → Int64 → Int64 → Option (List Int64)
count_up zero to step n = none
count_up (suc rounds) to step n = elim (leb n to) [
  | true ↦ Option.map (λ ns. n ∷ ns) (count_up rounds to step (add_int n step))
  | false ↦ some []
]

unfoldable pub count_down : ℕ → Int64 → Int64 → Int64 → Option (List Int64)
count_down zero to step n = none
count_down (suc rounds) to step n = elim (leb to n) [
  | true ↦ Option.map (λ ns. n ∷ ns) (count_down rounds to step (sub_int n step))
  | false ↦ some []
]

-- One more round than there are ints: a loop that has not ended by then has been at an int twice.
abbrev pub count_rounds : ℕ
count_rounds = modulus + 1

abbrev pub span_of : Int64 → Int64 → Int64
span_of from to =
    if is_negative (sub_int to from) then neg_int (sub_int to from) else sub_int to from

abbrev pub sequence_of : (Int64 → Word) → Option (List Int64) → Sequence
sequence_of format none = endless
sequence_of format (some ns) = is_sequence (map format ns)

-- count, in at most so many rounds
unfoldable pub count_in : ℕ → Int64 → Int64 → Int64 → (Int64 → Word) → Sequence
count_in rounds from to step format =
    if quotient_reaches (span_of from to) step max_expansion_words
    then too_long
    else sequence_of format (elim (ltb to from) [
      | true ↦ count_down rounds to step from
      | false ↦ count_up rounds to step from
    ])

unfoldable pub count : Int64 → Int64 → Int64 → (Int64 → Word) → Sequence
count from to step format = count_in count_rounds from to step format

-- sequence
abbrev zeros : ℕ → Word
zeros zero = []
zeros (suc n) = b'0' ∷ zeros n

unfoldable pub widen : ℕ → Int64 → Word
widen width n =
    let s = itoa n in
    if ltb (length s) width
    then if is_negative n
      then dash ∷ (zeros (width - 1 - length (drop 1 s)) ++ drop 1 s)
      else zeros (width - length s) ++ s
    else s

abbrev pub width_of : Word → Word → ℕ
width_of x y = if padded x || padded y then max (length x) (length y) else 0

abbrev pub is_letter : ℕ → Bool
is_letter c = (leb b'a' c && leb c b'z') || (leb b'A' c && leb c b'Z')

abbrev letter_of : Int64 → Word
letter_of n = (n - zero_int) ∷ []

abbrev letters : Word → Word → Int64 → Sequence
letters (x ∷ []) (y ∷ []) step =
    if is_letter x && is_letter y
    then count (zero_int + x) (zero_int + y) step letter_of
    else not_sequence
letters _ _ step = not_sequence

abbrev numbers : Word → Word → Int64 → Option Int64 → Option Int64 → Sequence
numbers x y step (some from) (some to) = count from to step (widen (width_of x y))
numbers x y step _ _ = letters x y step

abbrev between : Word → Word → Int64 → Sequence
between x y step = numbers x y step (atoi x) (atoi y)

-- The step of a third part: its absolute value, as an int has it, and 1 for 0.
abbrev pub step_of : Int64 → Int64
step_of n =
    let a = if is_negative n then neg_int n else n in if nat_eq a zero_int then zero_int + 1 else a

abbrev stepped : Word → Word → Option Int64 → Sequence
stepped x y none = not_sequence
stepped x y (some n) = between x y (step_of n)

abbrev sequence_parts : Words → Sequence
sequence_parts (x ∷ y ∷ []) = between x y (zero_int + 1)
sequence_parts (x ∷ y ∷ z ∷ []) = stepped x y (atoi z)
sequence_parts _ = not_sequence

unfoldable pub sequence : Word → Sequence
sequence inner = sequence_parts (split_dots inner)
