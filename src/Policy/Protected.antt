-- ===== src/Policy/Protected.antt =====
-- Which paths internal/policy/policy.go protects: covers, relativeTo, expandWord, protected,
-- IsProtected and pathRule.
use agent_fox.Policy.Targets.{write_targets}
use agent_fox.Policy.Glob.{component_matches, glob_bytes}
use agent_fox.Policy.Git.{Denial, denial, protected_path}
use agent_fox.Policy.Segments.{Segment}
use agent_fox.Table.{exists_where}
use agent_fox.Policy.Commands.{Policy}
use agent_fox.Policy.Paths.{Machine, clean, rel, stays, resolve_path, real_path}
use agent_fox.Prelude.{
  Option, Bool, if◌then◌else◌, [], some, coalesce, true, ◌==◌, ◌++◌, is_empty, or_else, none, ◌∷◌,
  false, ◌&&◌, nat_eq, ◌||◌, not, leb, length,
}
use agent_fox.Policy.Text.{
  Word, split, cut_prefix, trim_suffix, lower, bytes, slash, has_any, Word_Eq, has_prefix, drop,
  Words,
}
use mathlib.Core.Option.{Option}
use mathlib.Core.Option

-- The components of a path and of a protected one, as far as both go.
unfoldable pub parts_match : Words → Words → Bool
parts_match [] prot = true
parts_match (p ∷ ps) [] = true
parts_match (p ∷ ps) (q ∷ qs) = component_matches p q && parts_match ps qs

abbrev pub clean_protected : Word → Word
clean_protected prot = clean (trim_suffix prot (bytes "/"))

abbrev pub rel_components : Word → Words
rel_components r = if r == bytes "." then [] else split (lower r) slash

abbrev pub protected_components : Word → Words
protected_components prot = split (lower (clean_protected prot)) slash

-- covers
unfoldable pub covers : Word → Word → Bool → Bool
covers r prot removes =
    if clean_protected prot == bytes "."
    then true
    else parts_match (rel_components r) (protected_components prot)
      && (leb (length (protected_components prot)) (length (rel_components r)) || removes)

-- relativeTo
abbrev below : Option Word → Words
below none = []
below (some r) = if stays r then r ∷ [] else []

unfoldable pub relative_to : Machine → Word → Word → Words
relative_to m dir abs =
    below (rel (clean dir) abs)
    ++ (if has_any abs glob_bytes
        then []
        else below (rel (real_path m (clean dir)) (real_path m abs)))

-- expandWord: the first of the forms of a variable that the word starts with.
abbrev at_boundary : Word → Bool
at_boundary [] = true
at_boundary (c ∷ s) = nat_eq c slash

abbrev after_form : Word → Word → Option Word
after_form form p = elim (cut_prefix p form) [
  | none ↦ none
  | some after ↦ if at_boundary after then some after else none
]

abbrev variable_value : Word → Word → Word → Word → Option Word
variable_value plain braced value p =
    if is_empty value
    then none
    else Option.map (λ after. value ++ after) (or_else (after_form plain p) (after_form braced p))

abbrev home_word : Option Word → Word
home_word none = []
home_word (some home) = home

abbrev tilde : Option Word → Word → Option Word
tilde none p = none
tilde (some home) p =
    if p == bytes "~" || has_prefix p (bytes "~/") then some (home ++ drop 1 p) else none

unfoldable pub expand_word : Machine → Word → Word → Word
expand_word m p pwd =
    coalesce
      (or_else (tilde m.home p) (
        or_else (variable_value (bytes "$PWD") (bytes "${PWD}") pwd p)
          (variable_value (bytes "$HOME") (bytes "${HOME}") (home_word m.home) p)))
      p

-- protected
abbrev pub covered : Words → Bool → Word → Bool
covered paths removes r = exists_where (λ prot. covers r prot removes) paths

unfoldable pub protected_from : Machine → Words → Word → Word → Bool → Bool → Word → Bool
protected_from m paths dir p removes shell from =
    let word = if shell then expand_word m p from else p in
    exists_where (covered paths removes) (relative_to m dir (resolve_path from word))

unfoldable pub protected : Machine → Words → Word → Words → Word → Bool → Bool → Bool
protected m paths dir bases p removes shell =
    exists_where (protected_from m paths dir p removes shell) bases

-- IsProtected
unfoldable pub is_protected : Words → Word → Bool
is_protected paths r = exists_where (λ prot. covers (clean r) prot false) paths

-- pathRule
unfoldable pub path_rule : Machine → Policy → Word → Words → Segment → Option Denial
path_rule m p dir bases s =
    if not (is_empty p.protected_paths)
      && exists_where (λ t. protected m p.protected_paths dir bases t.path t.removes true)
          (write_targets s)
    then denial protected_path s.text
    else none
