-- ===== src/Policy/Branches.antt =====
-- When git branch and git remote only list: branchLists and remoteLists of
-- internal/policy/policy.go.
use agent_fox.Table.{exists_where}
use agent_fox.Prelude.{
  Bool, ◌==◌, if◌then◌else◌, ◌∷◌, false, ℕ, true, [], ◌||◌, nat_eq, not, ◌&&◌, is_empty, ◌+◌,
}
use agent_fox.Policy.Text.{Words, Word, bytes, has_prefix, contains, Word_Eq, dash, has_byte, trim}

-- branchLists: what an argument of git branch is.
pub data BranchWord : Type 0 where
  branch_list branch_plain branch_valued branch_merged branch_refused branch_operand : BranchWord
  branch_bundle : Bool → BranchWord

abbrev pub branch_plain_options : Words
branch_plain_options =
    bytes "-a"
    ∷ bytes "--all"
    ∷ bytes "-r"
    ∷ bytes "--remotes"
    ∷ bytes "-v"
    ∷ bytes "-vv"
    ∷ bytes "--verbose"
    ∷ bytes "--show-current"
    ∷ bytes "--color"
    ∷ bytes "--no-color"
    ∷ bytes "--column"
    ∷ bytes "--no-column"
    ∷ bytes "-i"
    ∷ bytes "--ignore-case"
    ∷ bytes "--no-abbrev"
    ∷ bytes "--omit-empty"
    ∷ []

abbrev pub branch_valued_options : Words
branch_valued_options =
    bytes "--contains"
    ∷ bytes "--no-contains"
    ∷ bytes "--points-at"
    ∷ bytes "--format"
    ∷ bytes "--sort"
    ∷ []

abbrev pub branch_attached : Words
branch_attached =
    bytes "--abbrev="
    ∷ bytes "--color="
    ∷ bytes "--format="
    ∷ bytes "--sort="
    ∷ bytes "--column="
    ∷ bytes "--contains="
    ∷ bytes "--no-contains="
    ∷ bytes "--merged="
    ∷ bytes "--no-merged="
    ∷ bytes "--points-at="
    ∷ []

abbrev is_branch_bundle : Word → Bool
is_branch_bundle (c ∷ d ∷ e ∷ w) =
    nat_eq c dash && not (nat_eq d dash) && is_empty (trim (d ∷ e ∷ w) (bytes "avrli"))
is_branch_bundle _ = false

unfoldable pub branch_word : Word → BranchWord
branch_word a =
    if a == bytes "--list" || a == bytes "-l"
    then branch_list
    else if contains branch_plain_options a
    then branch_plain
    else if contains branch_valued_options a
    then branch_valued
    else if a == bytes "--merged" || a == bytes "--no-merged"
    then branch_merged
    else if exists_where (has_prefix a) branch_attached
    then branch_plain
    else if is_branch_bundle a
    then branch_bundle (has_byte a b'l')
    else if has_prefix a (bytes "-")
    then branch_refused
    else branch_operand

-- The commit of --merged is the next word, unless that is an option.
abbrev commit_next : Words → Bool
commit_next [] = false
commit_next (a ∷ args) = not (has_prefix a (bytes "-"))

-- The loop: whether it lists, the operands so far, and whether the word is a value.
unfoldable pub branch_lists : Bool → ℕ → Bool → Words → Bool
branch_lists listing operands value [] = nat_eq operands 0 || listing
branch_lists listing operands true (a ∷ args) = branch_lists listing operands false args
branch_lists listing operands false (a ∷ args) = elim (branch_word a) [
  | branch_list ↦ branch_lists true operands false args
  | branch_plain ↦ branch_lists listing operands false args
  | branch_valued ↦ branch_lists listing operands true args
  | branch_merged ↦ branch_lists listing operands (commit_next args) args
  | branch_bundle l ↦ branch_lists (listing || l) operands false args
  | branch_refused ↦ false
  | branch_operand ↦ branch_lists listing (operands + 1) false args
]

-- remoteLists
unfoldable pub remote_lists : Words → Bool
remote_lists [] = true
remote_lists (a ∷ args) =
    let later = remote_lists args in
    if a == bytes "-v" || a == bytes "--verbose"
    then later
    else a == bytes "show" || a == bytes "get-url"
