-- ===== src/Policy/Commands.antt =====
-- The rules of internal/policy/policy.go on the program of a command besides git: inputRule,
-- suiteForm and suiteRule, afRule, and programRule.
use agent_fox.Policy.Paths.{is_abs}
use agent_fox.Table.{exists_where}
use agent_fox.Policy.Git.{
  Denial, denial, unparseable, suite_command, af_command, program_not_allowed,
}
use agent_fox.Policy.Text.{
  Word, bytes, has_prefix, base_name, contains, has_byte, Word_Eq, trim_left, slash, Words,
}
use agent_fox.Policy.Prefix.{is_assignment}
use agent_fox.Policy.Segments.{Segment, program}
use agent_fox.Prelude.{
  List, Option, if◌then◌else◌, Bool, ◌∷◌, [], ◌==◌, is_empty, false, not, true, ◌||◌, ◌++◌, ◌&&◌,
  none,
}

pub record Policy : Type 0 where
  pub suite : List Words
  pub protected_paths : Words
  pub allow_programs : Words

-- inputRule
abbrev pub input_rule : Segment → Option Denial
input_rule s = if s.from_input then denial unparseable s.text else none

-- suiteValued
abbrev make_valued : Words
make_valued =
    bytes "j"
    ∷ bytes "f"
    ∷ bytes "C"
    ∷ bytes "I"
    ∷ bytes "l"
    ∷ bytes "o"
    ∷ bytes "W"
    ∷ bytes "jobs"
    ∷ bytes "file"
    ∷ bytes "directory"
    ∷ bytes "include-dir"
    ∷ bytes "load-average"
    ∷ bytes "old-file"
    ∷ bytes "what-if"
    ∷ []

abbrev go_valued : Words
go_valued =
    bytes "timeout"
    ∷ bytes "p"
    ∷ bytes "parallel"
    ∷ bytes "count"
    ∷ bytes "cpu"
    ∷ bytes "tags"
    ∷ bytes "mod"
    ∷ bytes "ldflags"
    ∷ bytes "gcflags"
    ∷ bytes "asmflags"
    ∷ bytes "covermode"
    ∷ bytes "coverprofile"
    ∷ bytes "coverpkg"
    ∷ bytes "exec"
    ∷ bytes "shuffle"
    ∷ bytes "benchtime"
    ∷ bytes "vet"
    ∷ bytes "C"
    ∷ bytes "o"
    ∷ bytes "overlay"
    ∷ []

abbrev cargo_valued : Words
cargo_valued =
    bytes "j"
    ∷ bytes "jobs"
    ∷ bytes "target"
    ∷ bytes "features"
    ∷ bytes "F"
    ∷ bytes "manifest-path"
    ∷ bytes "profile"
    ∷ bytes "target-dir"
    ∷ []

unfoldable pub suite_valued : Word → Words
suite_valued prog =
    if prog == bytes "go"
    then go_valued
    else if prog == bytes "make" || prog == bytes "gmake"
    then make_valued
    else if prog == bytes "cargo"
    then cargo_valued
    else if prog == bytes "pytest"
    then bytes "n" ∷ bytes "p" ∷ bytes "c" ∷ bytes "rootdir" ∷ []
    else []

-- strings.Contains(s, sub)
unfoldable pub has_word : Word → Word → Bool
has_word [] sub = is_empty sub
has_word (c ∷ s) sub = has_prefix (c ∷ s) sub || has_word s sub

abbrev lists_packages : Word → Bool
lists_packages t =
    (has_prefix t (bytes "$(go list") || has_prefix t (bytes "`go list"))
    && has_word t (bytes "./...")

-- What suiteForm makes of a token: an option, one that takes the next token, or tokens it keeps.
pub data SuiteToken : Type 0 where
  suite_option suite_takes_next : SuiteToken
  suite_keeps : Words → SuiteToken

unfoldable pub suite_token : Words → Word → SuiteToken
suite_token valued t =
    if has_prefix t (bytes "-")
    then if contains valued (trim_left t (bytes "-")) then suite_takes_next else suite_option
    else if is_assignment t
    then suite_option
    else if lists_packages t
    then suite_keeps (bytes "./..." ∷ [])
    else suite_keeps (t ∷ [])

unfoldable pub suite_args : Words → Bool → Words → Words
suite_args valued value [] = []
suite_args valued true (t ∷ ts) = suite_args valued false ts
suite_args valued false (t ∷ ts) = elim (suite_token valued t) [
  | suite_option ↦ suite_args valued false ts
  | suite_takes_next ↦ suite_args valued true ts
  | suite_keeps kept ↦ kept ++ suite_args valued false ts
]

unfoldable pub suite_form : Words → Words
suite_form [] = []
suite_form (w ∷ tokens) = base_name w ∷ suite_args (suite_valued (base_name w)) false tokens

-- slices.Equal
unfoldable pub same_words : Words → Words → Bool
same_words [] [] = true
same_words (a ∷ v) (b ∷ w) = a == b && same_words v w
same_words _ _ = false

abbrev pub is_suite : Words → Words → Bool
is_suite tokens form =
    not (is_empty (suite_form form)) && same_words (suite_form tokens) (suite_form form)

-- suiteRule
unfoldable pub suite_rule : Policy → Segment → Option Denial
suite_rule p s =
    if not (is_empty s.prog) && exists_where (is_suite (s.prog ∷ s.args)) p.suite
    then denial suite_command s.text
    else none

abbrev pub af_allowed : List Words
af_allowed =
    (bytes "lang" ∷ bytes "detect" ∷ [])
    ∷ (bytes "gate" ∷ bytes "run" ∷ [])
    ∷ (bytes "revert-check" ∷ [])
    ∷ []

-- afRule: the words in front of the first option.
unfoldable pub af_words : Words → Words
af_words [] = []
af_words (a ∷ args) =
    let later = af_words args in if has_prefix a (bytes "-") then [] else a ∷ later

unfoldable pub begins_with : Words → Words → Bool
begins_with words [] = true
begins_with [] (b ∷ form) = false
begins_with (a ∷ words) (b ∷ form) = a == b && begins_with words form

unfoldable pub af_rule : Segment → Option Denial
af_rule s =
    if is_empty s.prog || not (program s == bytes "af")
    then none
    else if is_empty (af_words s.args) && contains s.args (bytes "--version")
    then none
    else if exists_where (begins_with (af_words s.args)) af_allowed
    then none
    else denial af_command s.text

-- isAfOrGit
unfoldable pub is_af_or_git : Word → Bool
is_af_or_git prog =
    not (has_byte prog slash && not (is_abs prog))
    && (base_name prog == bytes "af" || base_name prog == bytes "git")

abbrev pub builtins : Words
builtins =
    bytes "cd"
    ∷ bytes "pushd"
    ∷ bytes "popd"
    ∷ bytes "pwd"
    ∷ bytes "true"
    ∷ bytes "false"
    ∷ bytes ":"
    ∷ bytes "["
    ∷ bytes "[["
    ∷ bytes "test"
    ∷ bytes "echo"
    ∷ bytes "printf"
    ∷ bytes "read"
    ∷ bytes "export"
    ∷ bytes "unset"
    ∷ bytes "set"
    ∷ bytes "shift"
    ∷ bytes "return"
    ∷ bytes "exit"
    ∷ bytes "break"
    ∷ bytes "continue"
    ∷ bytes "wait"
    ∷ bytes "local"
    ∷ bytes "declare"
    ∷ bytes "typeset"
    ∷ bytes "readonly"
    ∷ bytes "for"
    ∷ bytes "case"
    ∷ bytes "select"
    ∷ bytes "eval"
    ∷ bytes "trap"
    ∷ []

-- programRule
unfoldable pub program_rule : Policy → Segment → Option Denial
program_rule p s =
    if is_empty p.allow_programs || is_empty s.prog
    then none
    else if is_af_or_git s.prog || contains builtins s.prog || contains p.allow_programs s.prog
    then none
    else denial program_not_allowed s.text
