-- ===== src/Triage/Tests.antt =====
-- Cited paths of internal/triage/validate.go, resolved in one tree, and its theorems there.
use agent_fox.Table.{exists_where, select_where}
use agent_fox.Policy.Integers.{itoa, atoi, zero_int}
use agent_fox.Triage.Ancestors.{add_dirs_rounds}
use agent_fox.Triage.Rooted.{IsRelative, resolve_cited-root}
use agent_fox.Policy.Paths.{dir_of, is_abs, clean, clean_from, from_slash}
use agent_fox.Policy.Text.{
  bytes, Word, has_prefix, slash, Word_Eq, split, join, same_word, cut_prefix, cut, base, trim_left,
  trim_suffix, all_digits,
}
use agent_fox.Triage.Cited.{IsCited, resolve_cited-IsCited}
use agent_fox.Triage.{
  Tree, Validator, Resolved, to_slashes, resolve_cited, add_dirs, bytes, new_validator, Word,
  dirs_from, drop_here, dir_of, trimmed_roots, drive_letter, found, under_root, last_colon,
  colon_line, is_regular, unresolved, same_name, resolve_colon, resolve_missing, resolve_clean,
  resolve_relative, missing, directory, outside_root, climbs, not_part, whole_tree,
}
use agent_fox.Prelude.{
  true, false, none, refl, [], String, Bool, ◌≡◌, ◌∷◌, ◌++◌, length, ◌==◌, ◌+◌, ◌&&◌, arith,
}

abbrev tree : Tree
tree = record {
  roots = bytes "/w/" ∷ bytes "/" ∷ [];
  files = bytes "a/x.go" ∷ bytes "b:7" ∷ bytes "a/y/x.go" ∷ [];
  regular = none;
}

abbrev fox_tree : Validator
fox_tree = new_validator tree

abbrev resolves : String → Resolved
resolves cited = resolve_cited fox_tree (bytes cited) false

abbrev is_found_at : Resolved → Word → Bool
is_found_at (found file n used_colon) digits =
    file == bytes "a/x.go" && itoa n == digits && used_colon
is_found_at (unresolved problem) digits = false

resolved :
    (fox_tree.trimmed ≡ bytes "/w" ∷ [])
    × (fox_tree.dirs ≡ bytes "a" ∷ bytes "a/y" ∷ [])
    × (resolves "./a/./x.go" ≡ found (bytes "a/x.go") zero_int false)
    × (resolves "a\\y/x.go" ≡ found (bytes "a/y/x.go") zero_int false)
    × (is_found_at (resolves "/w/a/x.go:12") (bytes "12") ≡ true)
    × (resolves "b:7" ≡ found (bytes "b:7") zero_int false)
    × (resolve_cited fox_tree (bytes "a/x.go:12") true ≡ unresolved (missing []))
    × (resolves "z/x.go" ≡ unresolved (missing (bytes "a/x.go" ∷ bytes "a/y/x.go" ∷ [])))
    × (resolves "a/y" ≡ unresolved directory)
    × (resolves "/v/a/x.go" ≡ unresolved outside_root)
    × (resolves "c:/a" ≡ unresolved outside_root)
    × (resolves "a/../b" ≡ unresolved climbs)
    × (resolves ".git/x" ≡ unresolved (not_part (bytes ".git")))
    × (resolves "/w" ≡ unresolved whole_tree)
unfolding to_slashes add_dirs dirs_from trimmed_roots new_validator drop_here drive_letter
    under_root last_colon colon_line is_regular same_name resolve_colon resolve_missing
    resolve_clean resolve_relative resolve_cited clean clean_from from_slash dir_of split join
    same_word exists_where has_prefix cut_prefix cut base trim_left trim_suffix atoi itoa all_digits
    select_where
resolved = (refl, refl, refl, refl, refl, refl, refl, refl, refl, refl, refl, refl, refl, refl)

rooted :
    (to_slashes (bytes "/w") ≡ bytes "/w")
    × IsRelative (bytes "a/x.go")
    × (is_abs (bytes "/w") ≡ true)
unfolding to_slashes drop_here drive_letter has_prefix
rooted = (refl, (refl, refl, refl, refl), refl)

resolve_cited-IsCited_example : IsCited fox_tree false (resolves "/w/a/x.go:12")
resolve_cited-IsCited_example = resolve_cited-IsCited fox_tree (bytes "/w/a/x.go:12") false

resolve_cited-root_example :
    resolve_cited fox_tree (bytes "/w" ++ slash ∷ bytes "a/x.go") false
    ≡ resolve_cited fox_tree (bytes "a/x.go") false
resolve_cited-root_example =
    resolve_cited-root fox_tree (bytes "/w") (bytes "a/x.go") [] false resolved.0 rooted.2 rooted.0
      rooted.1

add_dirs_rounds_example :
    add_dirs 12 (dir_of (bytes "a/y/x.go")) []
    ≡ add_dirs (length (bytes "a/y/x.go") + 2) (dir_of (bytes "a/y/x.go")) []
add_dirs_rounds_example = add_dirs_rounds (bytes "a/y/x.go") [] 12 (omega arith)
