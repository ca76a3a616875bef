-- ===== src/Policy/Glob.antt =====
-- path.Match of Go's path package, as far as componentMatches of internal/policy/policy.go asks for
-- it: whether a pattern is well formed and matches a name, and componentMatches itself.
use agent_fox.Policy.Text.{Word, bytes, drop, has_any, slash, has_prefix, Word_Eq}
use agent_fox.Prelude.{
  ℕ, Option, Bool, none, leb, false, if◌then◌else◌, length, ◌∷◌, ◌&&◌, suc, ◌+◌, not, some, nat_eq,
  true, is_empty, [], ◌||◌, ◌==◌, zero,
}
use mathlib.Core.Option

-- getEsc: one character of a class, and the pattern after it, which may not be empty.
unfoldable esc_end : ℕ → Word → Option (ℕ × Word)
esc_end c [] = none
esc_end c (d ∷ p) = some (c, d ∷ p)

abbrev esc_next : Word → Option (ℕ × Word)
esc_next [] = none
esc_next (c ∷ p) = esc_end c p

abbrev pub backslash : ℕ
backslash = 92

unfoldable pub get_esc : Word → Option (ℕ × Word)
unfolding esc_end
get_esc [] = none
get_esc (c ∷ p) =
    if nat_eq c b'-' || nat_eq c b']'
    then none
    else if nat_eq c backslash
    then esc_next p
    else esc_end c p

-- The end of a range from lo, which is lo where no dash follows it.
unfoldable pub range_end : ℕ → Word → Option (ℕ × Word)
range_end lo [] = none
range_end lo (c ∷ p) = if nat_eq c b'-' then get_esc p else some (lo, c ∷ p)

abbrev pub in_range : ℕ → ℕ → ℕ → Bool
in_range c lo hi = leb lo c && leb c hi

abbrev pub at_close : Word → Bool
at_close [] = false
at_close (c ∷ p) = nat_eq c b']'

-- The ranges of a class up to its ], in at most so many rounds: whether the byte is in one of
-- them, and the pattern after the class. The flag says that no range has been read yet.
unfoldable pub class_ranges : ℕ → Bool → ℕ → Bool → Word → Option (Bool × Word)
class_ranges zero first c found p = none
class_ranges (suc rounds) first c found p = elim (at_close p && not first) [
  | true ↦ some (found, drop 1 p)
  | false ↦ elim (get_esc p) [
    | none ↦ none
    | some (lo, p') ↦ elim (range_end lo p') [
      | none ↦ none
      | some (hi, p'') ↦ class_ranges rounds false c (found || in_range c lo hi) p''
    ]
  ]
]

abbrev pub negates : Word → Bool
negates [] = false
negates (c ∷ p) = nat_eq c b'^'

-- A class after its [: whether the byte is in it, and the pattern after it.
unfoldable pub read_class : ℕ → Word → Option (Bool × Word)
read_class c p =
    let q = if negates p then drop 1 p else p in
    Option.map (λ k. (if negates p then not k.0 else k.0, k.1))
      (class_ranges (length q) true c false q)

abbrev pub first_is : ℕ → Word → Bool
first_is b [] = false
first_is b (c ∷ s) = nat_eq c b

-- The match, with enough rounds.
unfoldable pub glob : ℕ → Word → Word → Bool
glob zero p s = false
glob (suc rounds) [] s = is_empty s
glob (suc rounds) (b ∷ p) [] = if nat_eq b b'*' then glob rounds p [] else false
glob (suc rounds) (b ∷ p) (c ∷ s) = elim (nat_eq b b'*') [
  | true ↦ elim (glob rounds p (c ∷ s)) [
    | true ↦ true
    | false ↦ not (nat_eq c slash) && glob rounds (b ∷ p) s
  ]
  | false ↦ elim (nat_eq b b'[') [
    | true ↦ elim (read_class c p) [ none ↦ false | some (m, p') ↦ m && glob rounds p' s ]
    | false ↦
        if nat_eq b b'?'
        then not (nat_eq c slash) && glob rounds p s
        else if nat_eq b backslash
        then first_is c p && glob rounds (drop 1 p) s
        else nat_eq b c && glob rounds p s
  ]
]

unfoldable pub path_match : Word → Word → Bool
path_match p s = glob (length p + length s + 1) p s

abbrev pub glob_bytes : Word
glob_bytes = bytes "*?["

-- componentMatches
unfoldable pub component_matches : Word → Word → Bool
component_matches pattern name =
    if not (has_any pattern glob_bytes)
    then pattern == name
    else if has_prefix name (bytes ".") && not (has_prefix pattern (bytes "."))
    then false
    else path_match pattern name
