-- ===== src/Triage.antt =====
-- internal/triage/validate.go: which file of the tree a cited path names. A path is a list of
-- bytes, path.Clean, path.Dir and path.Base are those of Policy, and a line is an int.
pub mod Cited
pub mod Rooted
pub mod Ancestors
mod Tests
use agent_fox.Policy.Glob.{backslash}
use agent_fox.Table.{select_where}
use agent_fox.Policy.Sequence.{is_letter}
use agent_fox.Policy.Integers.{Int64, atoi, zero_int}
use agent_fox.Policy.Paths.{dir_of, is_abs, clean}
use agent_fox.Policy.Text.{
  Words, Word, cut, contains, trim_right, slash, split, bytes, base, Word_Eq, has_byte, cut_prefix,
  is_digits,
}
use agent_fox.Prelude.{
  true, false, zero, suc, none, some, refl, [], inl, inr, if◌then◌else◌, ℕ, Option, Bool, ◌∷◌, take,
  nat_eq, ◌++◌, length, ◌==◌, not, ◌+◌, ◌&&◌, is_empty, ◌||◌, or_else,
}

-- Tree, without the counting of lines
pub record Tree : Type 0 where
  pub roots : Words
  pub files : Words
  pub regular : Option (Word → Bool)

-- The parts of validator that a path is resolved with.
pub record Validator : Type 0 where
  pub tree : Tree
  pub dirs : Words
  pub trimmed : Words

abbrev pub colon : ℕ
colon = b':'

unfoldable pub to_slashes : Word → Word
to_slashes [] = []
to_slashes (c ∷ s) = (if nat_eq c backslash then slash else c) ∷ to_slashes s

-- newValidator
unfoldable pub add_dirs : ℕ → Word → Words → Words
add_dirs zero dir dirs = dirs
add_dirs (suc rounds) dir dirs =
    let added = add_dirs rounds (dir_of dir) (dirs ++ dir ∷ []) in
    if dir == bytes "." || dir == bytes "/" || contains dirs dir then dirs else added

unfoldable pub dirs_from : Words → Words → Words
dirs_from dirs [] = dirs
dirs_from dirs (f ∷ files) = dirs_from (add_dirs (length f + 2) (dir_of f) dirs) files

unfoldable pub trimmed_roots : Words → Words
trimmed_roots [] = []
trimmed_roots (r ∷ roots) =
    let trimmed = trim_right (to_slashes r) (bytes "/") in
    let rest = trimmed_roots roots in if is_empty trimmed then rest else trimmed ∷ rest

unfoldable pub new_validator : Tree → Validator
new_validator t = record { tree = t; dirs = dirs_from [] t.files; trimmed = trimmed_roots t.roots }

-- Why a path is not resolved, and what the message names.
pub data PathProblem : Type 0 where
  outside_root : PathProblem
  climbs : PathProblem
  whole_tree : PathProblem
  not_part : Word → PathProblem
  not_regular : PathProblem
  link_at : Word → PathProblem
  directory : PathProblem
  missing : Words → PathProblem

-- The answers of resolve: a path with the line it ends in, or the problem.
pub data Resolved : Type 0 where
  found : Word → Int64 → Bool → Resolved
  unresolved : PathProblem → Resolved

-- Its loop over a leading ./
unfoldable pub drop_here : Word → Word
drop_here [] = []
drop_here (c ∷ []) = c ∷ []
drop_here (c ∷ d ∷ p) =
    let later = drop_here p in if nat_eq c b'.' && nat_eq d slash then later else c ∷ d ∷ p

-- driveLetter
unfoldable pub drive_letter : Word → Bool
drive_letter (c ∷ d ∷ e ∷ p) = is_letter c && nat_eq d colon && nat_eq e slash
drive_letter _ = false

-- underRoot
unfoldable pub under_root : Words → Word → Option Word
under_root [] p = none
under_root (r ∷ roots) p =
    let later = under_root roots p in
    if p == r then some (bytes ".") else or_else (cut_prefix p (r ++ bytes "/")) later

-- colonLine: the last colon, with bytes of one line before it and digits after it
unfoldable pub last_colon : Word → Option (Word × Word)
last_colon [] = none
last_colon (c ∷ s) = elim (last_colon s) [
  | some (before, after) ↦ some (c ∷ before, after)
  | none ↦ if nat_eq c colon then some ([], s) else none
]

abbrev line_break : ℕ
line_break = b'\n'

abbrev pub is_colon_line : Word → Word → Bool
is_colon_line before after =
    not (is_empty before) && not (has_byte before line_break) && is_digits after

unfoldable pub colon_line : Word → Option (Word × Word)
colon_line p = elim (last_colon p) [
  | some (before, after) ↦ if is_colon_line before after then some (before, after) else none
  | none ↦ none
]

-- regular
unfoldable pub is_regular : Validator → Word → Bool
is_regular v p = elim v.tree.regular [ some regular ↦ regular p | none ↦ true ]

abbrev pub first_part : Word → Word
first_part p = (cut p slash).0

abbrev pub hidden : Word → Bool
hidden p = first_part p == bytes ".git" || first_part p == bytes ".agent-fox"

abbrev pub max_suggested_base : ℕ
max_suggested_base = 3

unfoldable pub same_name : Validator → Word → Words
same_name v p = take max_suggested_base (select_where (λ f. base f == base p) v.tree.files)

abbrev pub with_line : Validator → Word → Option Int64 → Option Resolved
with_line v file none = none
with_line v file (some n) =
    some (if is_regular v file then found file n true else unresolved (link_at file))

abbrev pub before_colon : Validator → Option (Word × Word) → Option Resolved
before_colon v none = none
before_colon v (some (file, digits)) =
    if contains v.tree.files file then with_line v file (atoi digits) else none

-- What resolve makes of a path with a line in it.
unfoldable pub resolve_colon : Validator → Word → Bool → Option Resolved
resolve_colon v p has_line = if has_line then none else before_colon v (colon_line p)

unfoldable pub resolve_missing : Validator → Word → Resolved
resolve_missing v p =
    if contains v.dirs p then unresolved directory else unresolved (missing (same_name v p))

abbrev pub resolved_or : Option Resolved → Resolved → Resolved
resolved_or none r = r
resolved_or (some r) r' = r

-- Its part from the clean path on.
unfoldable pub resolve_clean : Validator → Word → Bool → Resolved
resolve_clean v p has_line =
    if p == bytes "."
    then unresolved whole_tree
    else if hidden p
    then unresolved (not_part (first_part p))
    else if contains v.tree.files p
    then if is_regular v p then found p zero_int false else unresolved not_regular
    else resolved_or (resolve_colon v p has_line) (resolve_missing v p)

unfoldable pub resolve_relative : Validator → Word → Bool → Resolved
resolve_relative v p has_line =
    if contains (split p slash) (bytes "..")
    then unresolved climbs
    else resolve_clean v (clean p) has_line

-- resolve
unfoldable pub resolve_cited : Validator → Word → Bool → Resolved
resolve_cited v cited has_line =
    let p = drop_here (to_slashes cited) in
    if is_abs p || drive_letter p
    then elim (under_root v.trimmed p) [
      | some inside ↦ resolve_relative v inside has_line
      | none ↦ unresolved outside_root
    ]
    else resolve_relative v p has_line
