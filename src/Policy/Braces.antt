-- ===== src/Policy/Braces.antt =====
-- Bash's brace expansion as internal/policy/expand.go makes it: matchingBrace and expandBraces.
use agent_fox.Policy.Sequence.{Sequence, is_sequence, sequence, not_sequence, too_long, endless}
use agent_fox.Policy.Text.{Words, Word}
use agent_fox.Prelude.{
  true, false, zero, suc, ℕ, List, [], Option, Bool, map, ◌∷◌, none, if◌then◌else◌, some, ◌++◌,
  length, ◌&&◌, nat_eq, ltb, suc, ◌+◌, ◌||◌, ◌-◌,
}
use mathlib.Core.Option.{Option}
use mathlib.Core.Option

-- A byte, and whether it is a brace or a comma that expands.
abbrev pub BraceByte : Type 0
BraceByte = ℕ × Bool

abbrev pub BraceWord : Type 0
BraceWord = List BraceByte

abbrev pub text_of : BraceWord → Word
text_of w = map (λ b. b.0) w

abbrev pub is_active : ℕ → BraceByte → Bool
is_active c b = b.1 && nat_eq b.0 c

-- What a { closes: the pieces between its commas, and what follows its }.
pub record Closed : Type 0 where
  pub pieces : List BraceWord
  pub post : BraceWord

abbrev pub add_byte : BraceByte → Closed → Closed
add_byte b k = record k { pieces = elim k.pieces [ [] ↦ (b ∷ []) ∷ [] | p ∷ ps ↦ (b ∷ p) ∷ ps ] }

abbrev pub new_piece : Closed → Closed
new_piece k = record k { pieces = [] ∷ k.pieces }

-- matchingBrace, behind the {; the depth is that of the braces inside it.
unfoldable pub matching_brace : ℕ → BraceWord → Option Closed
matching_brace depth [] = none
matching_brace depth (b ∷ w) = elim (is_active b'{' b) [
  | true ↦ Option.map (add_byte b) (matching_brace (suc depth) w)
  | false ↦ elim (is_active b'}' b) [
    | true ↦ elim depth [
      | zero ↦ some (record { pieces = [] ∷ []; post = w })
      | suc inner ↦ Option.map (add_byte b) (matching_brace inner w)
    ]
    | false ↦
        let later = matching_brace depth w in
        if is_active b',' b && nat_eq depth 0
        then Option.map new_piece later
        else Option.map (add_byte b) later
  ]
]

-- The words and the bytes that the expansion may still make.
pub record Budget : Type 0 where
  pub words : ℕ
  pub bytes_left : ℕ

pub record Expansion : Type 0 where
  pub out : Words
  pub left : Budget

-- The words of an alternative in front of each of the tails, and of all alternatives.
unfoldable pub spend : Budget → Word → Option Budget
spend k w =
    if nat_eq k.words 0 || ltb k.bytes_left (length w + 1)
    then none
    else some (record { words = k.words - 1; bytes_left = k.bytes_left - (length w + 1) })

abbrev pub add_out : Word → Expansion → Expansion
add_out w e = record e { out = w ∷ e.out }

unfoldable pub spend_all : Budget → Words → Option Expansion
spend_all k [] = some (record { out = []; left = k })
spend_all k (w ∷ ws) = elim (spend k w) [
  | none ↦ none
  | some k' ↦ Option.map (add_out w) (spend_all k' ws)
]

unfoldable pub combine : Word → Words → Words → Words
combine pre [] tails = []
combine pre (a ∷ alternatives) tails =
    map (λ t. pre ++ a ++ t) tails ++ combine pre alternatives tails

-- The alternatives of the pieces, one after the other.
abbrev pub join_out : Words → Expansion → Expansion
join_out ws e = record e { out = ws ++ e.out }

unfoldable pub expand_pieces :
    (BraceWord → Budget → Option Expansion) → List BraceWord → Budget → Option Expansion
expand_pieces expand [] k = some (record { out = []; left = k })
expand_pieces expand (p ∷ ps) k = elim (expand p k) [
  | none ↦ none
  | some e ↦ Option.map (join_out e.out) (expand_pieces expand ps e.left)
]

-- What is between the braces: with a comma the alternatives of the pieces, else those of a
-- sequence; no_brace where the braces stay as they are.
pub data Alternatives : Type 0 where
  no_brace failed : Alternatives
  alternatives : Expansion → Alternatives

abbrev pub of_expansion : Option Expansion → Alternatives
of_expansion none = failed
of_expansion (some e) = alternatives e

abbrev pub of_sequence : Budget → Sequence → Alternatives
of_sequence k not_sequence = no_brace
of_sequence k too_long = failed
of_sequence k endless = failed
of_sequence k (is_sequence ws) =
    if ltb k.words (length ws) then failed else alternatives (record { out = ws; left = k })

unfoldable pub between_braces :
    (BraceWord → Budget → Option Expansion) → List BraceWord → Budget → Alternatives
between_braces expand [] k = no_brace
between_braces expand (p ∷ []) k = of_sequence k (sequence (text_of p))
between_braces expand (p ∷ q ∷ ps) k = of_expansion (expand_pieces expand (p ∷ q ∷ ps) k)

-- The words of the alternatives and of what follows them.
abbrev pub finish : Word → Words → Option Expansion → Option Expansion
finish pre found none = none
finish pre found (some tails) = spend_all tails.left (combine pre found tails.out)

-- What a byte opens, when it is a { that expands and is closed.
unfoldable pub opened : BraceByte → BraceWord → Option Closed
opened b w = let closed = matching_brace 0 w in if is_active b'{' b then closed else none

-- expandBraces, with the bytes in front of the ones that are left, in words nested at most so deep.
unfoldable pub expand_from : ℕ → Word → BraceWord → Budget → Option Expansion
expand_from zero pre w k = none
expand_from (suc depth) pre [] k = some (record { out = pre ∷ []; left = k })
expand_from (suc depth) pre (b ∷ w) k = elim (opened b w) [
  | none ↦ expand_from (suc depth) (pre ++ b.0 ∷ []) w k
  | some closed ↦ elim (between_braces (expand_from depth []) closed.pieces k) [
    | no_brace ↦ expand_from (suc depth) (pre ++ b.0 ∷ []) w k
    | failed ↦ none
    | alternatives e ↦ finish pre e.out (expand_from depth [] closed.post e.left)
  ]
]

unfoldable pub expand_braces : BraceWord → Budget → Option Expansion
expand_braces w k = expand_from (length w + 1) [] w k
