-- ===== src/Policy/Paths.antt =====
-- The functions of Go's path and filepath packages that policy.go calls, on slash-separated paths,
-- and within, lexicallyWithin, realPath and resolve.
use mathlib.Core.List.{reverse}
use agent_fox.Prelude.{
  Bool, List, [], Option, ℕ, length, ◌∷◌, if◌then◌else◌, not, some, false, suc, ◌+◌, is_empty, ◌==◌,
  nat_eq, true, none, ◌||◌, ◌++◌, map, ◌&&◌, zero,
}
use mathlib.Core.Option
use agent_fox.Policy.Text.{Word, slash, split, join, bytes, has_prefix, drop, Word_Eq, or_word}

-- filepath.IsAbs
abbrev pub is_abs : Word → Bool
is_abs p = has_prefix p (slash ∷ [])

-- The components of a path, less its leading slash.
unfoldable pub components : Word → List Word
components p = let t = if is_abs p then drop 1 p else p in if is_empty t then [] else split t slash

-- path.Clean: the components so far are the stack, the last of them at its head.
abbrev pub clean_dots : Bool → List Word → List Word
clean_dots rooted [] = if rooted then [] else bytes ".." ∷ []
clean_dots rooted (top ∷ stack) = if top == bytes ".." then bytes ".." ∷ top ∷ stack else stack

abbrev pub clean_step : Bool → List Word → Word → List Word
clean_step rooted stack part =
    if is_empty part || part == bytes "."
    then stack
    else if part == bytes ".."
    then clean_dots rooted stack
    else part ∷ stack

unfoldable pub clean_from : Bool → List Word → List Word → List Word
clean_from rooted stack [] = reverse stack
clean_from rooted stack (part ∷ parts) = clean_from rooted (clean_step rooted stack part) parts

abbrev pub or_dot : Word → Word
or_dot [] = bytes "."
or_dot p = p

unfoldable pub clean : Word → Word
unfolding clean_from
clean p =
    let kept = join (clean_from (is_abs p) [] (split p slash)) (slash ∷ []) in
    or_dot (if is_abs p then slash ∷ kept else kept)

-- filepath.Join(a, b)
abbrev pub join_path : Word → Word → Word
join_path a b = if is_empty a then (if is_empty b then [] else clean b) else clean (a ++ slash ∷ b)

-- The reversed path from its last slash on.
unfoldable pub from_slash : Word → Word
from_slash [] = []
from_slash (c ∷ s) = if nat_eq c slash then c ∷ s else from_slash s

-- filepath.Dir
unfoldable pub dir_of : Word → Word
unfolding from_slash
dir_of p = clean (reverse (from_slash (reverse p)))

abbrev pub same_bool : Bool → Bool → Bool
same_bool true b = b
same_bool false b = not b

-- filepath.Rel of two clean paths: none where it is an error.
unfoldable pub rel_parts : List Word → List Word → Option (List Word)
rel_parts [] targ = some targ
rel_parts (b ∷ from) [] = if b == bytes ".." then none else some (map (λ _. bytes "..") (b ∷ from))
rel_parts (b ∷ from) (t ∷ targ) =
    let further = rel_parts from targ in
    if t == b
    then further
    else if b == bytes ".."
    then none
    else some (map (λ _. bytes "..") (b ∷ from) ++ t ∷ targ)

unfoldable pub rel : Word → Word → Option Word
unfolding rel_parts
rel from targ =
    let b = clean from in
    let t = clean targ in
    let start = if b == bytes "." then [] else b in
    if t == b
    then some (bytes ".")
    else if not (same_bool (is_abs start) (is_abs t))
    then none
    else Option.map (λ ps. join ps (slash ∷ [])) (rel_parts (components start) (components t))

-- Whether a path that Rel gave is neither .. nor below it.
abbrev pub stays : Word → Bool
stays r = not (r == bytes "..") && not (has_prefix r (bytes "../"))

abbrev pub stays_in : Option Word → Bool
stays_in none = false
stays_in (some r) = stays r

-- lexicallyWithin
unfoldable pub lexically_within : Word → Word → Bool
lexically_within root p = stays_in (rel (clean root) (clean p))

-- resolve
unfoldable pub resolve_path : Word → Word → Word
resolve_path from p = clean (if is_abs p then p else join_path from p)

-- What the machine knows: filepath.EvalSymlinks, os.UserHomeDir and os.TempDir.
pub record Machine : Type 0 where
  pub eval_symlinks : Word → Option Word
  pub home : Option Word
  pub temp_dir : Word

-- realPath, in so many rounds.
abbrev pub joined : Option Word → Word → Word → Word
joined none found p = p
joined (some r) found p = join_path found r

unfoldable pub real_path_from : Machine → ℕ → Word → Word → Option Word
real_path_from m zero q p = none
real_path_from m (suc rounds) q p =
    let up = real_path_from m rounds (dir_of q) p in
    elim (m.eval_symlinks q) [
      | some found ↦ some (joined (rel q p) found p)
      | none ↦ if q == dir_of q then some p else up
    ]

-- Its loop ends in this many rounds, so that there is a path.
unfoldable pub real_path : Machine → Word → Word
real_path m p = or_word (real_path_from m (length p + 2) p p) []

-- within
unfoldable pub within : Machine → Word → Word → Bool
within m root p =
    if lexically_within root p then true else lexically_within (real_path m root) (real_path m p)
