-- ===== src/Policy/PathTests.antt =====
-- The theorems on the paths of internal/policy/policy.go at paths of one machine, on which /w is a
-- link to /v.
use agent_fox.Policy.Inside.{IsInside, lexically_within_iff}
use agent_fox.Policy.Writes.{ResolvesAbs, LandsInside, decide_at-LandsInside}
use agent_fox.Policy.Git.{allow, deny, protected_path}
use agent_fox.Policy.FindTargets.{after_links}
use agent_fox.Table.{exists_where}
use agent_fox.Policy.Protected.{
  covers, expand_word, parts_match, protected, protected_from, relative_to,
}
use agent_fox.Policy.Rounds.Links.{real_path_rounds}
use agent_fox.Policy.Glob.{class_ranges, glob, path_match, range_end, read_class, component_matches}
use agent_fox.Policy.Text.{
  Word, all_digits, bytes, base, Word_Eq, cut, cut_prefix, has_prefix, join, lower, same_word,
  split, trim_left, trim_suffix,
}
use agent_fox.Policy.Judge.{
  Reading, base_dirs, decide_at, decide_file, decide_shell, decide_write, last_base, writes_file,
}
use agent_fox.Policy.Commands.{Policy}
use agent_fox.Policy.Paths.{
  Machine, real_path_from, real_path, clean, components, dir_of, lexically_within, rel,
  resolve_path, within, clean_from, from_slash, is_abs,
}
use agent_fox.Prelude.{
  true, false, none, some, refl, [], if◌then◌else◌, ◌==◌, Option, ◌∷◌, ◌≡◌, arith, inl, inr, ◌↔◌,
  Bool-cases, subst,
}

abbrev linked : Machine
linked = record {
  eval_symlinks = λ p. if p == bytes "/w" then some (bytes "/v") else none;
  home = some (bytes "/home/fox");
  temp_dir = bytes "/tmp";
}

abbrev paths_policy : Policy
paths_policy = record { suite = []; protected_paths = bytes ".git/" ∷ []; allow_programs = [] }

-- A guard that refuses none, and a reader of nothing.
abbrev unused_reading : Reading
unused_reading = record { parse = λ text. none; refuses = λ text. false }

abbrev source_path : Word → Option Word
source_path field = some (bytes "x.go")

link_resolved :
    (real_path linked (bytes "/w/a") ≡ bytes "/v/a")
    × (writes_file (bytes "write_file") ≡ true)
    × (decide_at unused_reading linked paths_policy
          (bytes "/w")
          (bytes "sub")
          (bytes "write_file")
          source_path
        ≡ allow)
    × (decide_at unused_reading linked paths_policy
          (bytes "/w")
          (bytes "sub")
          (bytes "edit_file")
          (λ field. some (bytes "../.git/x"))
        ≡ deny (record { rule = protected_path; segment = bytes "../.git/x" }))
unfolding all_digits base base_dirs class_ranges clean components covers cut cut_prefix decide_at
    decide_file decide_shell decide_write dir_of exists_where expand_word after_links glob
    has_prefix join last_base lexically_within lower parts_match path_match protected protected_from
    range_end read_class real_path real_path_from rel relative_to resolve_path same_word split
    trim_left trim_suffix within component_matches clean_from from_slash
link_resolved = (refl, refl, refl, refl)

real_path_rounds_example :
    real_path_from linked 9 (bytes "/w/a/b") (bytes "/w/a/b")
    ≡ some (real_path linked (bytes "/w/a/b"))
real_path_rounds_example = real_path_rounds linked (bytes "/w/a/b") 9 (omega arith)

linked-ResolvesAbs : ResolvesAbs linked
unfolding has_prefix
linked-ResolvesAbs q found absolute e = elim (Bool-cases (q == bytes "/w")) [
  | inl at_link ↦
      let same : bytes "/v" ≡ found = ground (arith, at_link, e) in
      subst (λ w. is_abs w ≡ true) same refl
  | inr other ↦ absurd (ground (arith, other, e))
]

absolute_dirs : (is_abs (bytes "/w") ≡ true) × (is_abs (bytes "/tmp") ≡ true)
unfolding has_prefix
absolute_dirs = (refl, refl)

decide_at-LandsInside_example :
    (file : Word) × ((some (bytes "x.go") ≡ some file)
      × LandsInside linked (bytes "/w") (bytes "sub") file)
decide_at-LandsInside_example =
    decide_at-LandsInside unused_reading linked paths_policy (bytes "/w") (bytes "sub")
      (bytes "write_file") source_path linked-ResolvesAbs absolute_dirs.0 absolute_dirs.1
      link_resolved.1 link_resolved.2

absolute_paths : (is_abs (bytes "/w/.") ≡ true) × (is_abs (bytes "/w/a/../b") ≡ true)
unfolding has_prefix
absolute_paths = (refl, refl)

lexically_within_iff_example :
    (lexically_within (bytes "/w/.") (bytes "/w/a/../b") ≡ true)
    ↔ IsInside (bytes "/w/a/../b") (bytes "/w/.")
lexically_within_iff_example =
    lexically_within_iff (bytes "/w/.") (bytes "/w/a/../b") absolute_paths.0 absolute_paths.1
