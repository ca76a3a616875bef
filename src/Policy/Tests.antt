-- ===== src/Policy/Tests.antt =====
-- The policy on concrete commands, and the theorems at them.
use agent_fox.Policy.Shown.{IsCutWhole, shorten_fits}
use agent_fox.Policy.Passing.{allowed-IsPermitted}
use agent_fox.Policy.Permitted.{IsPermitted}
use agent_fox.Policy.Lines.{EachPasses, decide_command_allows, bases_after, exported_by}
use agent_fox.Policy.Nesting.{runs_ends, Executes, IsReadable}
use agent_fox.Policy.Covering.{IsPlain, LiesBelow, covers_iff}
use agent_fox.Policy.Quoting.{quote_words, IsQuotable, split_string-quote_words}
use agent_fox.Policy.Skipping.{StartsProgram, skip_prefix_ends}
use agent_fox.Table.Every.{Each}
use agent_fox.Policy.Flatten.{flatten, runs, together, rounds_of, max_depth}
use agent_fox.Policy.Targets.{
  last_of, output_files, program_targets, redirect_targets, split_args, write_targets,
  writer_valued, arg_word, dd_targets,
}
use agent_fox.Policy.FindTargets.{
  find_roots, find_targets, find_tests, find_writes, after_links, unfiltered,
}
use agent_fox.Table.{exists_where, select_where}
use agent_fox.Policy.Protected.{
  covers, expand_word, parts_match, path_rule, protected, protected_from, relative_to,
  clean_protected, rel_components, protected_components,
}
use agent_fox.Policy.Glob.{
  class_ranges, get_esc, glob, path_match, range_end, read_class, component_matches,
}
use agent_fox.Policy.Segments.{
  Command, Segment, new_segment, embedded, executed, exports, changes_directory, flags_of,
  options_set, reads_input, reads_of, shell_script, shell_word, trap_script,
}
use agent_fox.Policy.Prefix.{
  coproc_name, env_bundle, env_word, is_assignment, is_wrapper, prefix_word, size, skip_env,
  skip_options, skip_prefix, skip_rounds, skip_wrapper, valued_of, wrapper_word,
}
use agent_fox.Policy.SplitString.{read_bytes, read_plain, split_string}
use agent_fox.Policy.Text.{
  Words, Word, all_digits, bytes, base, split, base_name, cut, cut_prefix, has_prefix, join, lower,
  same_word, trim_left, trim_suffix, trim, blanks,
}
use agent_fox.Policy.Git.{
  Rule, Decision, deny, git_reads, git_rule, git_subcommand, git_word, opens_pager, allow,
  git_mutation, suite_command, protected_path, outside_dir, unparseable,
}
use agent_fox.Policy.Branches.{branch_lists, branch_word, remote_lists}
use agent_fox.Policy.Commands.{
  Policy, has_word, is_af_or_git, af_rule, af_words, begins_with, program_rule, same_words,
  suite_args, suite_form, suite_rule, suite_token, suite_valued,
}
use agent_fox.Policy.Paths.{
  Machine, clean, components, dir_of, lexically_within, real_path, real_path_from, rel,
  resolve_path, within,
}
use agent_fox.Policy.Judge.{
  Reading, decide_command, base_dirs, decide_at, decide_file, decide_shell, decide_write, judge,
  judge_all, last_base, rune_cut, shorten, max_command_bytes, with_exports, ellipsis,
}
use agent_fox.Prelude.{
  String, some, none, ◌∷◌, [], false, ◌≡◌, refl, ◌↔◌, List, true, ◌≤◌, ◌≢◌, arith, length, is_some,
  ◌+◌, ◌++◌, ◌⊎◌, ◌<◌, ℕ, take,
}

-- Words with one blank between them.
abbrev words : String → Words
words text = split (bytes text) b' '

abbrev command_of : Word → Command
command_of text = record { text = text; words = split text b' '; redirects = [] }

abbrev line : String → Segment
line text = new_segment (command_of (bytes text))

-- One command to a line, and a guard that refuses none.
abbrev reading : Reading
reading = record { parse = λ text. some (command_of text ∷ []); refuses = λ text. false }

abbrev machine : Machine
machine = record {
  eval_symlinks = λ p. none;
  home = some (bytes "/home/fox");
  temp_dir = bytes "/tmp";
}

abbrev policy : Policy
policy = record {
  suite = words "go test ./..." ∷ [];
  protected_paths = bytes ".git/" ∷ [];
  allow_programs = [];
}

abbrev place : Word
place = bytes "/w"

abbrev runs_line : String → Decision
runs_line text = decide_command reading machine policy place (place ∷ []) (bytes text)

abbrev refused_by : Rule → String → Decision
refused_by rule text = deny (record { rule = rule; segment = bytes text })

-- Lines that are allowed and refused, and a write outside the checkout.
decisions :
    (runs_line "git log" ≡ allow)
    × (runs_line "A=1 env -i GIT push" ≡ refused_by git_mutation "A=1 env -i GIT push")
    × (runs_line "go test -timeout 5m ./..." ≡ refused_by suite_command "go test -timeout 5m ./...")
    × (runs_line "find . -exec rm .GIT ;" ≡ refused_by protected_path "find . -exec rm .GIT ;")
    × (runs_line "env -S eval git commit" ≡ refused_by git_mutation "git commit")
    × (runs_line "touch .g[h-j]*/x" ≡ refused_by protected_path "touch .g[h-j]*/x")
    × (runs_line "bash -s" ≡ refused_by unparseable "bash -s")
    × (decide_write machine policy place (place ∷ []) (some (bytes "../x"))
        ≡ refused_by outside_dir "../x")
unfolding all_digits base base_dirs base_name branch_lists branch_word class_ranges clean components
    coproc_name covers cut cut_prefix decide_at decide_command decide_file decide_shell decide_write
    dir_of embedded env_bundle env_word executed exists_where expand_word exports changes_directory
    find_roots find_targets find_tests find_writes after_links unfiltered flags_of flatten get_esc
    git_reads git_rule git_subcommand git_word glob has_prefix has_word is_af_or_git is_assignment
    is_wrapper join judge judge_all last_base last_of lexically_within lower af_rule af_words
    begins_with new_segment opens_pager options_set output_files parts_match path_match path_rule
    prefix_word program_rule program_targets protected protected_from range_end read_class
    read_bytes read_plain reads_input reads_of real_path real_path_from redirect_targets rel
    relative_to remote_lists resolve_path rune_cut runs same_word same_words shell_script shell_word
    shorten size skip_env skip_options skip_prefix skip_rounds skip_wrapper split split_args
    split_string suite_args suite_form suite_rule suite_token suite_valued together trap_script
    trim_left trim_suffix valued_of within wrapper_word write_targets writer_valued arg_word
    component_matches dd_targets select_where
decisions = (refl, refl, refl, refl, refl, refl, refl, refl)

log_allowed : runs_line "git log" ≡ allow
log_allowed = decisions.0

-- The theorems at these commands.
hypotheses :
    Each IsPlain (rel_components (bytes ".Git/config"))
    × (clean_protected (bytes ".git/") ≢ bytes ".")
    × (rounds_of (line "find . -exec sh -c x ;") ≤ 90)
    × Each IsQuotable (words "sh -c")
unfolding all_digits base base_dirs base_name branch_lists branch_word class_ranges clean components
    coproc_name covers cut cut_prefix decide_at decide_command decide_file decide_shell decide_write
    dir_of embedded env_bundle env_word executed exists_where expand_word exports changes_directory
    find_roots find_targets find_tests find_writes after_links unfiltered flags_of flatten get_esc
    git_reads git_rule git_subcommand git_word glob has_prefix has_word is_af_or_git is_assignment
    is_wrapper join judge judge_all last_base last_of lexically_within lower af_rule af_words
    begins_with new_segment opens_pager options_set output_files parts_match path_match path_rule
    prefix_word program_rule program_targets protected protected_from range_end read_class
    read_bytes read_plain reads_input reads_of real_path real_path_from redirect_targets rel
    relative_to remote_lists resolve_path rune_cut runs same_word same_words shell_script shell_word
    shorten size skip_env skip_options skip_prefix skip_rounds skip_wrapper split split_args
    split_string suite_args suite_form suite_rule suite_token suite_valued together trap_script
    trim_left trim_suffix valued_of within wrapper_word write_targets writer_valued arg_word
    component_matches dd_targets select_where
hypotheses = ((refl, (refl, tt)), λ e. cc, omega arith, (refl, (refl, tt)))

decide_command_allows_example : (runs_line "git log" ≡ allow) ↔ (
    (segments : List Segment) × (length (bytes "git log") ≤ max_command_bytes)
    × (flatten reading.parse (max_depth + 1) (bytes "git log") ≡ some segments)
    × (reading.refuses (bytes "git log") ≡ false)
    × EachPasses machine policy place (place ∷ []) segments)
decide_command_allows_example =
    decide_command_allows reading machine policy place (place ∷ []) (bytes "git log")

allowed-IsPermitted_example :
    (segments : List Segment) × (flatten reading.parse (max_depth + 1) (bytes "git log")
      ≡ some segments)
    × ((before : List Segment) (s : Segment) (after : List Segment)
        → segments ≡ before ++ s ∷ after
        → IsPermitted machine policy place
            (bases_after (place ∷ []) before)
            (with_exports s (exported_by before)))
allowed-IsPermitted_example =
    allowed-IsPermitted reading machine policy place (place ∷ []) (bytes "git log") log_allowed

covers_iff_example : (covers (bytes ".Git/config") (bytes ".git/") false ≡ true) ↔ (
    LiesBelow (rel_components (bytes ".Git/config")) (protected_components (bytes ".git/"))
    ⊎ ((false ≡ true)
        × LiesBelow (protected_components (bytes ".git/")) (rel_components (bytes ".Git/config"))))
covers_iff_example =
    covers_iff (bytes ".Git/config") (bytes ".git/") false hypotheses.0 hypotheses.1

skip_prefix_ends_example : StartsProgram (skip_prefix (words "env -S sh x")).argv
skip_prefix_ends_example = skip_prefix_ends (words "env -S sh x")

runs_ends_example :
    (runs (flatten reading.parse 3) 90 (line "find . -exec sh -c x ;")
      ≡ runs
          (flatten reading.parse 3)
          (rounds_of (line "find . -exec sh -c x ;"))
          (line "find . -exec sh -c x ;"))
    × ((is_some (runs (flatten reading.parse 3) 90 (line "find . -exec sh -c x ;")) ≡ true) ↔ (
        (t : Segment)
        → Executes t (line "find . -exec sh -c x ;")
        → IsReadable (flatten reading.parse 3) t))
runs_ends_example =
    runs_ends (flatten reading.parse 3) (line "find . -exec sh -c x ;") 90 hypotheses.2

split_string-quote_words_example : split_string (quote_words (words "sh -c")) ≡ words "sh -c"
split_string-quote_words_example = split_string-quote_words (words "sh -c") hypotheses.3

shorten_fits_example :
    (1 ≤ length (shorten (bytes " ls ")))
    × (length (shorten (bytes " ls ")) ≤ 203)
    × (length (trim (bytes " ls ") blanks) ≡ 0 → shorten (bytes " ls ") ≡ bytes "(empty command)")
    × ((1 ≤ length (trim (bytes " ls ") blanks))
        → length (trim (bytes " ls ") blanks) ≤ 200
        → shorten (bytes " ls ") ≡ trim (bytes " ls ") blanks)
    × (200 < length (trim (bytes " ls ") blanks)
        → (n : ℕ) × ((shorten (bytes " ls ") ≡ take n (trim (bytes " ls ") blanks) ++ ellipsis)
            × IsCutWhole n (trim (bytes " ls ") blanks)))
shorten_fits_example = shorten_fits (bytes " ls ")
