-- ===== src/Policy/Parse.antt =====
-- parse of internal/policy/parse.go: the commands of a line as the reader of the hands gives them
-- (guard.Commands, a parameter), with shellWords and readQuotes.
use agent_fox.Policy.Flatten.{together}
use agent_fox.Policy.Sequence.{max_expansion_words, max_expansion_bytes}
use agent_fox.Policy.Text.{Words, Word, has_prefix, bytes, drop, Word_Eq}
use agent_fox.Policy.Segments.{Redirect, Command}
use agent_fox.Policy.Quotes.{Inside, Escape, split_ifs, ansi_c, closing}
use agent_fox.Policy.Braces.{BraceWord, Budget, expand_braces}
use agent_fox.Prelude.{
  ℕ, Option, Bool, map, ◌∷◌, some, if◌then◌else◌, length, List, ◌++◌, nat_eq, false, [], none, ◌==◌,
  ◌||◌, suc, zero,
}
use mathlib.Core.Option.{Option}
use mathlib.Core.Option

-- put
abbrev expands : ℕ → Bool
expands c = nat_eq c b'{' || nat_eq c b'}' || nat_eq c b','

abbrev pub put : Word → BraceWord
put s = map (λ c. (c, false)) s

abbrev put_active : ℕ → BraceWord
put_active c = (c, expands c) ∷ []

-- What starts at a byte of a word: the bytes that it is read into, and what follows it.
pub record Piece : Type 0 where
  pub read : BraceWord
  pub after : Word

abbrev pub quoted_text : Option Escape → Option Piece
quoted_text none = none
quoted_text (some k) = some (record { read = put k.stands_for; after = k.after })

-- An expansion is kept as it is written, with its brackets.
abbrev kept_whole : Word → Inside → Option Piece
kept_whole start k = some (record { read = put (start ++ k.inside ++ k.end); after = k.after })

abbrev text_inside : Inside → Option Piece
text_inside k = some (record { read = put k.inside; after = k.after })

unfoldable pub next_piece : ℕ → Word → Option Piece
next_piece c w =
    if has_prefix (c ∷ w) (bytes "$'")
    then quoted_text (ansi_c (drop 1 w))
    else if has_prefix (c ∷ w) (bytes "$\"")
    then text_inside (closing b'"' 0 false (drop 1 w))
    else if has_prefix (c ∷ w) (bytes "${")
    then kept_whole (bytes "${") (closing b'}' 0 false (drop 1 w))
    else if has_prefix (c ∷ w) (bytes "$(")
    then kept_whole (bytes "$(") (closing b')' 0 false (drop 1 w))
    else if nat_eq c b'`'
    then kept_whole (b'`' ∷ []) (closing b'`' 0 false w)
    else some (record { read = put_active c; after = w })

-- readQuotes, in at most so many rounds
unfoldable pub read_quotes_from : ℕ → Word → Option BraceWord
read_quotes_from rounds [] = some []
read_quotes_from zero (c ∷ w) = none
read_quotes_from (suc rounds) (c ∷ w) = elim (next_piece c w) [
  | none ↦ none
  | some k ↦ Option.map (λ more. k.read ++ more) (read_quotes_from rounds k.after)
]

unfoldable pub read_quotes : Word → Option BraceWord
read_quotes w = read_quotes_from (length w) w

-- shellWords
abbrev pub full_budget : Budget
full_budget = record { words = max_expansion_words; bytes_left = max_expansion_bytes }

abbrev pub expand_piece : Option BraceWord → Option Words
expand_piece none = none
expand_piece (some w) = Option.map (λ e. e.out) (expand_braces w full_budget)

unfoldable pub piece_words : Word → Option Words
piece_words piece = expand_piece (read_quotes piece)

unfoldable pub shell_words : Word → Option Words
shell_words w = together (map piece_words (split_ifs w))

-- A command as guard.Commands gives it.
pub record GuardCommand : Type 0 where
  pub text : Word
  pub assign : Words
  pub argv : Words
  pub redirects : List Redirect

abbrev assignment_word : Word → Word
assignment_word name = name ++ bytes "="

abbrev keeps_target : Word → Bool
keeps_target op = op == bytes "<<" || op == bytes "<<-"

abbrev redirect_to : Redirect → Word → Redirect
redirect_to r t = record r { target = t }

unfoldable pub parse_redirect : Redirect → Option (List Redirect)
parse_redirect r =
    if keeps_target r.op
    then some (r ∷ [])
    else Option.map (map (redirect_to r)) (shell_words r.target)

abbrev command_with : GuardCommand → Words → List Redirect → Command
command_with c words redirects = record {
  text = c.text;
  words = map assignment_word c.assign ++ words;
  redirects = redirects;
}

abbrev parsed : GuardCommand → Option Words → Option (List Redirect) → Option (List Command)
parsed c (some words) (some redirects) = some (command_with c words redirects ∷ [])
parsed c _ _ = none

unfoldable pub parse_command : GuardCommand → Option (List Command)
parse_command c =
    parsed c (together (map shell_words c.argv)) (together (map parse_redirect c.redirects))

unfoldable pub parse : (Word → Option (List GuardCommand)) → Word → Option (List Command)
parse commands src = elim (commands src) [ none ↦ none | some cs ↦ together (map parse_command cs) ]
