-- ===== src/Policy/FindTargets.antt =====
-- The paths that find writes, by findTargets of internal/policy/policy.go.
use agent_fox.Prelude.{
  [], Bool, List, false, true, ◌∷◌, if◌then◌else◌, ◌++◌, ◌==◌, ◌&&◌, ◌||◌, map, not,
}
use agent_fox.Policy.Text.{Words, Word, bytes, contains, has_prefix, Word_Eq}

pub record Target : Type 0 where
  pub path : Word
  pub removes : Bool

abbrev pub written : Word → Target
written p = record { path = p; removes = false }

abbrev pub removed : Word → Target
removed p = record { path = p; removes = true }

abbrev pub first_arg : Words → Words
first_arg [] = []
first_arg (a ∷ args) = a ∷ []

-- findTargets: the roots, behind the options -H, -L and -P.
abbrev link_option : Word → Bool
link_option a = contains (bytes "-H" ∷ bytes "-L" ∷ bytes "-P" ∷ []) a

unfoldable pub after_links : Words → Words
after_links [] = []
after_links (a ∷ args) = if link_option a then after_links args else a ∷ args

abbrev starts_test : Word → Bool
starts_test a = has_prefix a (bytes "-") || contains (bytes "(" ∷ bytes "!" ∷ bytes "," ∷ []) a

unfoldable pub find_roots : Words → Words
find_roots [] = []
find_roots (a ∷ args) = let more = find_roots args in if starts_test a then [] else a ∷ more

unfoldable pub find_tests : Words → Words
find_tests [] = []
find_tests (a ∷ args) = if starts_test a then a ∷ args else find_tests args

abbrev roots_of : Words → Words
roots_of [] = bytes "." ∷ []
roots_of (a ∷ roots) = a ∷ roots

abbrev filters_nothing : Word → Bool
filters_nothing a =
    contains
      (bytes "-delete"
        ∷ bytes "-depth"
        ∷ bytes "-print"
        ∷ bytes "-print0"
        ∷ bytes "-xdev"
        ∷ bytes "-mount"
        ∷ [])
      a

abbrev limits_depth : Word → Bool
limits_depth a = a == bytes "-maxdepth" || a == bytes "-mindepth"

unfoldable pub unfiltered : Bool → Words → Bool
unfiltered value [] = true
unfiltered true (a ∷ args) = unfiltered false args
unfiltered false (a ∷ args) = elim (limits_depth a) [
  | true ↦ unfiltered true args
  | false ↦ (filters_nothing a || not (has_prefix a (bytes "-"))) && unfiltered false args
]

abbrev prints_file : Word → Bool
prints_file a =
    contains (bytes "-fprint" ∷ bytes "-fprint0" ∷ bytes "-fprintf" ∷ bytes "-fls" ∷ []) a

abbrev delete_of : Bool → Word → Target
delete_of all root = record { path = root; removes = all }

unfoldable pub find_writes : Bool → Words → Words → List Target
find_writes all roots [] = []
find_writes all roots (a ∷ args) =
    let more = find_writes all roots args in
    if a == bytes "-delete"
    then map (delete_of all) roots ++ more
    else if prints_file a
    then map written (first_arg args) ++ more
    else more

unfoldable pub find_targets : Words → List Target
find_targets args =
    let behind = after_links args in
    find_writes (unfiltered false (find_tests behind)) (roots_of (find_roots behind)) args
