-- ===== src/Policy/Segments.antt =====
-- The commands of a line and what runs found in them: redirect, command, segment, newSegment, the
-- scripts that a command reads, the commands of find -exec, exports and changesDirectory of
-- internal/policy/policy.go and parse.go.
use agent_fox.Table.{select_where}
use agent_fox.Policy.Prefix.{skip_prefix, first_word, is_assignment}
use agent_fox.Policy.Text.{
  Words, Word, bytes, has_prefix, join, base_name, contains, Word_Eq, has_byte, drop, is_digits,
}
use agent_fox.Prelude.{
  zero, suc, Option, none, Bool, ℕ, false, List, some, ◌==◌, ◌∷◌, if◌then◌else◌, ◌||◌, true, suc,
  [], is_empty, ◌&&◌, nat_eq, ◌++◌, map, not, ◌+◌,
}

pub record Redirect : Type 0 where
  pub fd : Word
  pub op : Word
  pub target : Word

pub record Command : Type 0 where
  pub text : Word
  pub words : Words
  pub redirects : List Redirect

-- script is none where hasScript is false.
pub record Segment : Type 0 where
  pub text : Word
  pub prog : Word
  pub args : Words
  pub redirects : List Redirect
  pub assigns : Words
  pub script : Option Word
  pub from_input : Bool

-- What reads, trapScript and shellScript return.
pub record Reads : Type 0 where
  pub script : Option Word
  pub from_input : Bool

abbrev pub reads_nothing : Reads
reads_nothing = record { script = none; from_input = false }

abbrev pub reads_script : Word → Reads
reads_script s = record { script = some s; from_input = false }

abbrev pub reads_from : Bool → Reads
reads_from input = record { script = none; from_input = input }

abbrev pub shells : Words
shells = bytes "sh" ∷ bytes "bash" ∷ bytes "zsh" ∷ bytes "dash" ∷ bytes "ksh" ∷ bytes "ash" ∷ []

-- readsInput
unfoldable pub reads_input : Word → Bool
reads_input name =
    name == bytes "-"
    || has_prefix name (bytes "<(")
    || name == bytes "/dev/stdin"
    || has_prefix name (bytes "/dev/fd/")
    || has_prefix name (bytes "/proc/self/fd/")

-- trapScript
abbrev trap_action : Words → Reads
trap_action (a ∷ signal ∷ more) =
    if a == bytes "-" || is_empty a || is_digits a then reads_nothing else reads_script a
trap_action _ = reads_nothing

unfoldable pub trap_script : Words → Reads
trap_script [] = trap_action []
trap_script (a ∷ args) =
    let later = trap_script args in
    if has_prefix a (bytes "-") && not (a == bytes "-")
    then if a == bytes "-l" || a == bytes "-p"
      then reads_nothing
      else if a == bytes "--"
      then trap_action args
      else later
    else trap_action (a ∷ args)

-- shellScript: what a word is to the loop over the options.
pub data ShellWord : Type 0 where
  shell_ends shell_describes shell_file shell_long shell_bundle shell_operand : ShellWord

abbrev is_bundle : Word → Bool
is_bundle (c ∷ d ∷ a) = nat_eq c b'-' || nat_eq c b'+'
is_bundle _ = false

unfoldable pub shell_word : Word → ShellWord
shell_word a =
    if a == bytes "--" || a == bytes "-"
    then shell_ends
    else if a == bytes "--version" || a == bytes "--help"
    then shell_describes
    else if a == bytes "--rcfile" || a == bytes "--init-file"
    then shell_file
    else if has_prefix a (bytes "--")
    then shell_long
    else if is_bundle a
    then shell_bundle
    else shell_operand

-- cmdString and stdin.
pub record ShellFlags : Type 0 where
  pub cmd_string : Bool
  pub stdin : Bool

abbrev on_dash : Word → Bool
on_dash a = has_prefix a (bytes "-")

unfoldable pub flags_of : Word → ShellFlags → ShellFlags
flags_of a f = record {
  cmd_string = f.cmd_string || has_byte (drop 1 a) b'c' && on_dash a;
  stdin = f.stdin || has_byte (drop 1 a) b's' && on_dash a;
}

-- The next words that the options o and O of a bundle set.
unfoldable pub options_set : Word → ℕ
options_set [] = 0
options_set (c ∷ s) = (if nat_eq c b'o' || nat_eq c b'O' then 1 else 0) + options_set s

abbrev shell_input : Words → Reads
shell_input [] = reads_from true
shell_input (a ∷ more) = reads_from (reads_input a)

abbrev shell_command : Words → Reads
shell_command [] = reads_nothing
shell_command (a ∷ more) = reads_script a

abbrev shell_end : ShellFlags → Words → Reads
shell_end f operands =
    if f.cmd_string
    then shell_command operands
    else if f.stdin
    then reads_from true
    else shell_input operands

unfoldable pub shell_script : ShellFlags → ℕ → Words → Reads
shell_script f skip [] = shell_end f []
shell_script f (suc skip) (a ∷ args) = shell_script f skip args
shell_script f zero (a ∷ args) = elim (shell_word a) [
  | shell_ends ↦ shell_end f args
  | shell_describes ↦ reads_nothing
  | shell_file ↦ shell_script f 1 args
  | shell_long ↦ shell_script f 0 args
  | shell_bundle ↦ shell_script (flags_of a f) (options_set (drop 1 a)) args
  | shell_operand ↦ shell_end f (a ∷ args)
]

abbrev no_flags : ShellFlags
no_flags = record { cmd_string = false; stdin = false }

abbrev less_dashes : Words → Words
less_dashes [] = []
less_dashes (a ∷ args) = if a == bytes "--" then args else a ∷ args

abbrev eval_script : Words → Reads
eval_script [] = reads_nothing
eval_script args = reads_script (join args (bytes " "))

abbrev source_input : Words → Reads
source_input [] = reads_nothing
source_input (a ∷ args) = reads_from (reads_input a)

-- reads, of a program by its name
unfoldable pub reads_of : Word → Words → Reads
reads_of prog args =
    if prog == bytes "eval"
    then eval_script (less_dashes args)
    else if prog == bytes "trap"
    then trap_script args
    else if prog == bytes "source" || prog == bytes "."
    then source_input args
    else if contains shells prog
    then shell_script no_flags 0 args
    else reads_nothing

-- program, of the word of a segment
abbrev pub program : Segment → Word
program s = base_name s.prog

unfoldable pub new_segment : Command → Segment
new_segment c =
    let k = skip_prefix c.words in
    let r = reads_of (base_name (first_word k.argv)) (drop 1 k.argv) in
    record {
      text = c.text;
      prog = first_word k.argv;
      args = drop 1 k.argv;
      redirects = c.redirects;
      assigns = k.assigns;
      script = r.script;
      from_input = r.from_input;
    }

-- embedded: the words of each command that find executes. The first argument is the command that
-- is being read.
abbrev pub executes : Word → Bool
executes a = contains (bytes "-exec" ∷ bytes "-execdir" ∷ bytes "-ok" ∷ bytes "-okdir" ∷ []) a

abbrev pub ends_command : Word → Bool
ends_command a = a == bytes ";" || a == bytes "+"

abbrev pub with_command : Words → List Words → List Words
with_command [] more = more
with_command words more = words ∷ more

unfoldable pub executed : Option Words → Words → List Words
executed none [] = []
executed (some words) [] = with_command words []
executed none (a ∷ args) = elim (executes a) [
  | true ↦ executed (some []) args
  | false ↦ executed none args
]
executed (some words) (a ∷ args) = elim (ends_command a) [
  | true ↦ with_command words (executed none args)
  | false ↦ executed (some (words ++ a ∷ [])) args
]

abbrev pub embedded_command : Segment → Words → Segment
embedded_command s words = new_segment (record { text = s.text; words = words; redirects = [] })

unfoldable pub embedded : Segment → List Segment
embedded s =
    if program s == bytes "find" then map (embedded_command s) (executed none s.args) else []

-- exports
unfoldable pub exports : Segment → Words
exports s =
    if contains (bytes "export" ∷ bytes "declare" ∷ bytes "typeset" ∷ []) (program s)
    then select_where is_assignment s.args
    else []

-- changesDirectory
abbrev cd_operands : Words → Words
cd_operands args = select_where (λ a. not (has_prefix a (bytes "-")) || a == bytes "-") args

abbrev cd_target : Words → Option Word
cd_target (a ∷ []) =
    if a == bytes "-" || has_prefix a (bytes "~") || has_byte a b'$' then none else some a
cd_target _ = none

unfoldable pub changes_directory : Segment → Option Word
changes_directory s = if s.prog == bytes "cd" then cd_target (cd_operands s.args) else none
