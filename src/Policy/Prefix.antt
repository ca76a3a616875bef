-- ===== src/Policy/Prefix.antt =====
-- What comes before the program of a command: assignment, keywords, skipPrefix, wrappers,
-- skipWrapper, skipEnv, splitString and rest of internal/policy/policy.go.
use agent_fox.Policy.SplitString.{split_string}
use agent_fox.Policy.Text.{
  Word, bytes, contains, drop, base_name, is_digit, has_prefix, Word_Eq, trim_prefix, Words,
}
use agent_fox.Prelude.{
  ℕ, [], Bool, leb, ◌||◌, false, ◌∷◌, if◌then◌else◌, ◌==◌, ◌&&◌, nat_eq, ◌++◌, is_empty, true, suc,
  length, not, ◌+◌, zero,
}

-- The regular expression assignment.
abbrev is_letter : ℕ → Bool
is_letter c = (leb b'A' c && leb c b'Z') || (leb b'a' c && leb c b'z')

abbrev name_start : ℕ → Bool
name_start c = is_letter c || nat_eq c b'_'

abbrev starts_with : ℕ → Word → Bool
starts_with b [] = false
starts_with b (c ∷ s) = nat_eq c b

name_then_equals : Word → Bool
name_then_equals [] = false
name_then_equals (c ∷ s) =
    if name_start c || is_digit c
    then name_then_equals s
    else if nat_eq c b'+'
    then starts_with b'=' s
    else nat_eq c b'='

unfoldable pub is_assignment : Word → Bool
unfolding name_then_equals
is_assignment [] = false
is_assignment (c ∷ s) = name_start c && name_then_equals s

abbrev pub keywords : Words
keywords =
    bytes "if"
    ∷ bytes "then"
    ∷ bytes "else"
    ∷ bytes "elif"
    ∷ bytes "while"
    ∷ bytes "until"
    ∷ bytes "do"
    ∷ bytes "{"
    ∷ bytes "!"
    ∷ bytes "}"
    ∷ bytes "fi"
    ∷ bytes "done"
    ∷ bytes "esac"
    ∷ []

abbrev pub wrappers : Words
wrappers =
    bytes "env"
    ∷ bytes "time"
    ∷ bytes "timeout"
    ∷ bytes "nice"
    ∷ bytes "nohup"
    ∷ bytes "command"
    ∷ bytes "exec"
    ∷ bytes "builtin"
    ∷ bytes "xargs"
    ∷ []

unfoldable pub is_wrapper : Word → Bool
is_wrapper word = contains wrappers (base_name word)

-- skipEnv: what a word is to it.
pub data EnvWord : Type 0 where
  env_ends env_option env_valued env_splits_next env_program : EnvWord
  env_splits : Word → EnvWord

-- The options in a bundle, less its dash.
unfoldable pub env_bundle : Word → EnvWord
env_bundle [] = env_option
env_bundle (c ∷ s) =
    if nat_eq c b'u' || nat_eq c b'C'
    then if is_empty s then env_valued else env_option
    else if nat_eq c b'S'
    then if is_empty s then env_splits_next else env_splits s
    else env_bundle s

abbrev pub split_option : Word
split_option = bytes "--split-string="

unfoldable pub env_word : Word → EnvWord
env_word a =
    if a == bytes "--"
    then env_ends
    else if has_prefix a split_option
    then env_splits (trim_prefix a split_option)
    else if a == bytes "--split-string"
    then env_splits_next
    else if a == bytes "--unset" || a == bytes "--chdir"
    then env_valued
    else if has_prefix a (bytes "--")
    then env_option
    else if has_prefix a (bytes "-") && not (a == bytes "-")
    then env_bundle (drop 1 a)
    else env_program

abbrev pub first_word : Words → Word
first_word [] = []
first_word (w ∷ ws) = w

-- The loop of skipEnv over the words after env; the flag says that the word was a value.
unfoldable pub skip_env : Words → Bool → Words → Words
skip_env lead value [] = lead
skip_env lead true (a ∷ ws) = skip_env lead false ws
skip_env lead false (a ∷ ws) = elim (env_word a) [
  | env_ends ↦ lead ++ ws
  | env_option ↦ skip_env lead false ws
  | env_valued ↦ skip_env lead true ws
  | env_splits_next ↦ skip_env (lead ++ split_string (first_word ws)) true ws
  | env_splits s ↦ skip_env (lead ++ split_string s) false ws
  | env_program ↦ lead ++ a ∷ ws
]

-- skipWrapper: the options of a wrapper that take the next word, and the words it takes itself.
unfoldable pub valued_of : Word → Words
valued_of name =
    if name == bytes "time"
    then bytes "-f" ∷ bytes "-o" ∷ bytes "--format" ∷ bytes "--output" ∷ []
    else if name == bytes "timeout"
    then bytes "-s" ∷ bytes "-k" ∷ bytes "--signal" ∷ bytes "--kill-after" ∷ []
    else if name == bytes "nice"
    then bytes "-n" ∷ bytes "--adjustment" ∷ []
    else if name == bytes "exec"
    then bytes "-a" ∷ []
    else if name == bytes "xargs"
    then bytes "-a"
      ∷ bytes "-d"
      ∷ bytes "-E"
      ∷ bytes "-I"
      ∷ bytes "-L"
      ∷ bytes "-n"
      ∷ bytes "-P"
      ∷ bytes "-s"
      ∷ bytes "--arg-file"
      ∷ bytes "--delimiter"
      ∷ bytes "--eof"
      ∷ bytes "--max-lines"
      ∷ bytes "--max-args"
      ∷ bytes "--max-procs"
      ∷ bytes "--max-chars"
      ∷ []
    else []

abbrev pub positional_of : Word → ℕ
positional_of name = if name == bytes "timeout" then 1 else 0

-- rest, of the words from i on.
abbrev pub rest : ℕ → Words → Words
rest positional words = drop positional words

pub data WrapperWord : Type 0 where
  wrapper_ends wrapper_valued wrapper_option wrapped : WrapperWord

unfoldable pub wrapper_word : Words → Word → WrapperWord
wrapper_word valued a =
    if a == bytes "--"
    then wrapper_ends
    else if contains valued a
    then wrapper_valued
    else if has_prefix a (bytes "-") && not (a == bytes "-")
    then wrapper_option
    else wrapped

unfoldable pub skip_options : Words → ℕ → Bool → Words → Words
skip_options valued positional value [] = []
skip_options valued positional true (a ∷ ws) = skip_options valued positional false ws
skip_options valued positional false (a ∷ ws) = elim (wrapper_word valued a) [
  | wrapper_ends ↦ rest positional ws
  | wrapper_valued ↦ skip_options valued positional true ws
  | wrapper_option ↦ skip_options valued positional false ws
  | wrapped ↦ rest positional (a ∷ ws)
]

-- command -v describes a command and runs none.
abbrev pub describes : Word → Words → Bool
describes name ws =
    name == bytes "command" && (contains ws (bytes "-v") || contains ws (bytes "-V"))

-- The words that skipWrapper leaves of a wrapper and what follows it; the assignments that it
-- returns are none, since those of env are left in the words.
unfoldable pub skip_wrapper : Word → Words → Words
skip_wrapper w ws =
    let name = base_name w in
    if name == bytes "env"
    then skip_env [] false ws
    else if describes name ws
    then []
    else skip_options (valued_of name) (positional_of name) false ws

-- skipPrefix: what the first of the words is to it.
pub data PrefixWord : Type 0 where
  assignment function_word coproc keyword wrapper program_word : PrefixWord

unfoldable pub prefix_word : Word → PrefixWord
prefix_word w =
    if is_assignment w
    then assignment
    else if w == bytes "function"
    then function_word
    else if w == bytes "coproc"
    then coproc
    else if contains keywords w
    then keyword
    else if is_wrapper w
    then wrapper
    else program_word

-- coproc NAME { …; }
unfoldable pub coproc_name : Words → Words
coproc_name (n ∷ b ∷ ws) = if b == bytes "{" then b ∷ ws else n ∷ b ∷ ws
coproc_name ws = ws

pub record Skipped : Type 0 where
  pub argv : Words
  pub assigns : Words

-- The loop of skipPrefix in at most so many rounds.
unfoldable pub skip_rounds : ℕ → Words → Words → Skipped
skip_rounds rounds assigns [] = record { argv = []; assigns = assigns }
skip_rounds zero assigns (w ∷ ws) = record { argv = w ∷ ws; assigns = assigns }
skip_rounds (suc rounds) assigns (w ∷ ws) = elim (prefix_word w) [
  | assignment ↦ skip_rounds rounds (assigns ++ w ∷ []) ws
  | function_word ↦ skip_rounds rounds assigns (drop 1 ws)
  | coproc ↦ skip_rounds rounds assigns (coproc_name ws)
  | keyword ↦ skip_rounds rounds assigns ws
  | wrapper ↦ skip_rounds rounds assigns (skip_wrapper w ws)
  | program_word ↦ record { argv = w ∷ ws; assigns = assigns }
]

-- The bytes of the words, with one more for each word: env -S may make more words of one, but
-- every round leaves less of this.
unfoldable pub size : Words → ℕ
size [] = 0
size (w ∷ ws) = length w + 1 + size ws

unfoldable pub skip_prefix : Words → Skipped
skip_prefix words = skip_rounds (size words) [] words
