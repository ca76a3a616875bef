-- ===== src/Policy/Git.antt =====
-- Which git commands internal/policy/policy.go refuses (gitRule), and the Decision of a call.
use agent_fox.Policy.Branches.{branch_lists, remote_lists}
use agent_fox.Table.{exists_where}
use agent_fox.Policy.Segments.{Segment, program}
use agent_fox.Prelude.{
  Bool, Option, ◌==◌, if◌then◌else◌, ◌∷◌, false, true, some, [], ◌||◌, nat_eq, not, ◌&&◌, is_empty,
  none,
}
use agent_fox.Policy.Text.{
  Words, Word, bytes, trim_suffix, has_prefix, contains, cut, Word_Eq, dash, has_byte,
}

-- The rules that decide a denial.
pub data Rule : Type 0 where
  unparseable hands_guard git_mutation suite_command af_command program_not_allowed : Rule
  protected_path outside_dir : Rule

-- A denial, less the wording of its reason.
pub record Denial : Type 0 where
  pub rule : Rule
  pub segment : Word

pub data Decision : Type 0 where
  allow : Decision
  deny : Denial → Decision

abbrev pub denial : Rule → Word → Option Denial
denial r text = some (record { rule = r; segment = text })

abbrev pub git_read_only : Words
git_read_only =
    bytes "status"
    ∷ bytes "log"
    ∷ bytes "diff"
    ∷ bytes "show"
    ∷ bytes "blame"
    ∷ bytes "ls-files"
    ∷ bytes "ls-tree"
    ∷ bytes "rev-parse"
    ∷ bytes "rev-list"
    ∷ bytes "grep"
    ∷ bytes "describe"
    ∷ bytes "cat-file"
    ∷ bytes "shortlog"
    ∷ bytes "merge-base"
    ∷ bytes "name-rev"
    ∷ bytes "for-each-ref"
    ∷ bytes "show-ref"
    ∷ []

abbrev pub git_programs : Words
git_programs =
    bytes "GIT_EXTERNAL_DIFF"
    ∷ bytes "GIT_EXEC_PATH"
    ∷ bytes "GIT_ASKPASS"
    ∷ bytes "GIT_SSH"
    ∷ bytes "GIT_SSH_COMMAND"
    ∷ bytes "GIT_PROXY_COMMAND"
    ∷ bytes "GIT_EDITOR"
    ∷ bytes "GIT_SEQUENCE_EDITOR"
    ∷ bytes "GIT_TEMPLATE_DIR"
    ∷ []

-- gitSubcommand: what a word in front of the subcommand is.
pub data GitWord : Type 0 where
  git_refused git_valued git_option git_sub : GitWord

abbrev more_than_two : Word → Bool
more_than_two (a ∷ b ∷ c ∷ w) = true
more_than_two _ = false

abbrev pub sets_config : Word → Bool
sets_config a =
    a == bytes "-c"
    || has_prefix a (bytes "-c") && not (has_prefix a (bytes "--")) && more_than_two a
    || has_prefix a (bytes "--config-env")
    || has_prefix a (bytes "--exec-path=")

abbrev pub git_valued_options : Words
git_valued_options =
    bytes "-C"
    ∷ bytes "--git-dir"
    ∷ bytes "--work-tree"
    ∷ bytes "--namespace"
    ∷ bytes "--super-prefix"
    ∷ bytes "--attr-source"
    ∷ []

unfoldable pub git_word : Word → GitWord
git_word a =
    if sets_config a
    then git_refused
    else if contains git_valued_options a
    then git_valued
    else if has_prefix a (bytes "-")
    then git_option
    else git_sub

-- What gitSubcommand returns: a refused option, or the subcommand and what follows it, if any.
pub data Subcommand : Type 0 where
  refused_option no_subcommand : Subcommand
  subcommand : Word → Words → Subcommand

unfoldable pub git_subcommand : Bool → Words → Subcommand
git_subcommand value [] = no_subcommand
git_subcommand true (a ∷ args) = git_subcommand false args
git_subcommand false (a ∷ args) = elim (git_word a) [
  | git_refused ↦ refused_option
  | git_valued ↦ git_subcommand true args
  | git_option ↦ git_subcommand false args
  | git_sub ↦ subcommand a args
]

-- gitEnvironment, as far as whether it names a variable.
abbrev pub sets_git : Word → Bool
sets_git a =
    let name = trim_suffix (cut a b'=').0 (bytes "+") in
    has_prefix name (bytes "GIT_CONFIG") || contains git_programs name

abbrev pub git_environment : Words → Bool
git_environment assigns = exists_where sets_git assigns

-- opensPager
abbrev bundles_o : Word → Bool
bundles_o (c ∷ d ∷ w) = nat_eq c dash && not (nat_eq d dash) && has_byte (c ∷ d ∷ w) b'O'
bundles_o _ = false

unfoldable pub opens_pager : Word → Bool
opens_pager a = has_prefix a (bytes "--open-files-in-pager") || bundles_o a

-- gitRule
unfoldable pub git_reads : Word → Words → Bool
git_reads sub args =
    if sub == bytes "grep" && exists_where opens_pager args
    then false
    else is_empty sub
      || contains git_read_only sub
      || sub == bytes "branch" && branch_lists false 0 false args
      || sub == bytes "remote" && remote_lists args

unfoldable pub git_rule : Segment → Option Denial
git_rule s =
    if is_empty s.prog || not (program s == bytes "git")
    then none
    else if git_environment s.assigns
    then denial git_mutation s.text
    else elim (git_subcommand false s.args) [
      | refused_option ↦ denial git_mutation s.text
      | no_subcommand ↦ none
      | subcommand sub args ↦ if git_reads sub args then none else denial git_mutation s.text
    ]
