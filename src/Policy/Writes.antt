-- ===== src/Policy/Writes.antt =====
-- What an allowed write of internal/policy/policy.go touches: decideWrite, in the directories of
-- baseDirs.
use agent_fox.Policy.Protected.{protected}
use agent_fox.Policy.Commands.{Policy}
use agent_fox.Policy.Git.{Denial, deny, allow}
use agent_fox.Policy.Judge.{
  base_dirs, last_base, decide_file, decide_write, writes_file, decide_at, Reading,
}
use mathlib.Core.List.{reverse, reverse-cons, reverse-append}
use agent_fox.Policy.Rounds.Links.{real_path_rounds}
use agent_fox.Policy.Names.{clean-IsNamed}
use agent_fox.Policy.Inside.{IsInside, lexically_within_iff}
use agent_fox.Policy.Paths.{
  Machine, real_path_from, within, resolve_path, is_abs, clean, join_path, joined, real_path,
  lexically_within, rel, dir_of, from_slash,
}
use agent_fox.Policy.Text.{
  has_prefix, Word, slash, Word_Eq, same_word, bytes, same_word_iff, trim, blanks,
}
use agent_fox.Prelude.{
  true, false, zero, suc, none, some, refl, [], inl, inr, if◌then◌else◌, Option, Bool, ℕ, ◌≡◌, ◌⊎◌,
  ◌++◌, Option-cases, Bool-cases, ◌∷◌, length, ap, subst, ◌+◌, ◌==◌, arith, nat_eq, nat_eq_iff,
  is_empty, ◌∙◌, not, ◌&&◌,
}

clean-abs : (p : Word) → is_abs p ≡ true → is_abs (clean p) ≡ true
unfolding has_prefix
clean-abs p absolute = let (ws, (e, names)) = clean-IsNamed p absolute in ap is_abs e

append-abs : (p w : Word) → is_abs p ≡ true → is_abs (p ++ w) ≡ true
unfolding has_prefix
append-abs [] w h = absurd (cc)
append-abs (c ∷ p) w h = h

join_path-abs : (a b : Word) → is_abs a ≡ true → is_abs (join_path a b) ≡ true
unfolding has_prefix
join_path-abs [] b h = absurd (cc)
join_path-abs (c ∷ a) b h = clean-abs ((c ∷ a) ++ slash ∷ b) (append-abs (c ∷ a) (slash ∷ b) h)

-- What EvalSymlinks resolves an absolute path to is absolute.
abbrev pub ResolvesAbs : Machine → Type 0
ResolvesAbs m =
    (q found : Word) → is_abs q ≡ true → m.eval_symlinks q ≡ some found → is_abs found ≡ true

joined-abs :
    (r : Option Word) (found p : Word)
    → is_abs found ≡ true
    → is_abs p ≡ true
    → is_abs (joined r found p) ≡ true
joined-abs none found p h h' = h'
joined-abs (some r) found p h h' = join_path-abs found r h

-- The reversed path up to a slash ends in its first byte, where this is a slash.
from_slash-last : (v : Word) → (u : Word) × (from_slash (v ++ slash ∷ []) ≡ u ++ slash ∷ [])
unfolding from_slash
from_slash-last [] = ([], refl)
from_slash-last (c ∷ v) = elim (Bool-cases (nat_eq c slash)) [
  | inl e ↦ (c ∷ v, rw e refl)
  | inr e ↦ let (u, later) = from_slash-last v in (u, rw e later)
]

dir_of-abs : (q : Word) → is_abs q ≡ true → is_abs (dir_of q) ≡ true
unfolding dir_of has_prefix
dir_of-abs [] h = absurd (cc)
dir_of-abs (c ∷ q) h =
    let is_slash : c ≡ slash = (nat_eq_iff c slash).0 (ground (arith, h)) in
    let (u, up) = from_slash-last (reverse q) in
    let turned : reverse (from_slash (reverse (c ∷ q))) ≡ slash ∷ reverse u =
      ap (λ b. reverse (from_slash (reverse (b ∷ q)))) is_slash
      ∙ ap (λ w. reverse (from_slash w)) (reverse-cons slash q)
      ∙ ap reverse up
      ∙ reverse-append u (slash ∷ []) in
    clean-abs (reverse (from_slash (reverse (c ∷ q)))) (ap is_abs turned)

real_path_from-abs :
    (m : Machine) (n : ℕ) (q p w : Word)
    → ResolvesAbs m
    → is_abs q ≡ true
    → is_abs p ≡ true
    → real_path_from m n q p ≡ some w
    → is_abs w ≡ true
unfolding real_path_from
real_path_from-abs m zero q p w resolves hq h e = absurd (cc e)
real_path_from-abs m (suc n) q p w resolves hq h e = elim (Option-cases (m.eval_symlinks q)) [
  | inr (found, there) ↦
      let same : joined (rel q p) found p ≡ w = ground (arith, there, e) in
      subst (λ x. is_abs x ≡ true) same (joined-abs (rel q p) found p (resolves q found hq there) h)
  | inl nothing ↦ elim (Bool-cases (q == dir_of q)) [
    | inl last ↦
        let same : p ≡ w = ground (arith, nothing, last, e) in subst (λ x. is_abs x ≡ true) same h
    | inr other ↦
        let later : real_path_from m n (dir_of q) p ≡ some w = ground (arith, nothing, other, e) in
        real_path_from-abs m n (dir_of q) p w resolves (dir_of-abs q hq) h later
  ]
]

real_path-abs :
    (m : Machine) (p : Word) → ResolvesAbs m → is_abs p ≡ true → is_abs (real_path m p) ≡ true
real_path-abs m p resolves h =
    real_path_from-abs m (length p + 2) p p (real_path m p) resolves h h
      (real_path_rounds m p (length p + 2) (omega arith))

-- A path is inside a directory as it is written, or with the links of both resolved.
abbrev pub IsWithin : Machine → Word → Word → Type 0
IsWithin m root p = IsInside p root ⊎ IsInside (real_path m p) (real_path m root)

either_of : (a b : Bool) → ((if a then true else b) ≡ true) → (a ≡ true) ⊎ (b ≡ true)
either_of true b h = inl refl
either_of false b h = inr h

within-IsWithin :
    (m : Machine) (root p : Word)
    → ResolvesAbs m
    → is_abs root ≡ true
    → is_abs p ≡ true
    → within m root p ≡ true
    → IsWithin m root p
unfolding within
within-IsWithin m root p resolves h h' e =
    elim (either_of (lexically_within root p) (lexically_within (real_path m root) (real_path m p))
      e) [
        | inl here ↦ inl ((lexically_within_iff root p h h').0 here)
        | inr there ↦ inr (
            (lexically_within_iff (real_path m root) (real_path m p)
                (real_path-abs m root resolves h) (real_path-abs m p resolves h')).0
              there)
      ]

resolve_path-abs : (from p : Word) → is_abs from ≡ true → is_abs (resolve_path from p) ≡ true
unfolding resolve_path
resolve_path-abs from p h = elim (Bool-cases (is_abs p)) [
  | inl absolute ↦ rw absolute (clean-abs p absolute)
  | inr relative ↦ rw relative (clean-abs (join_path from p) (join_path-abs from p h))
]

-- The last of the directories that a call may be in.
last_base-abs :
    (m : Machine) (dir cwd : Word)
    → is_abs dir ≡ true
    → is_abs (last_base (base_dirs m dir cwd)) ≡ true
unfolding base_dirs last_base
last_base-abs m dir cwd h = elim (Bool-cases (is_empty cwd)) [
  | inl nothing ↦ rw nothing h
  | inr given ↦
      elim (Bool-cases
        (not (resolve_path dir cwd == clean dir) && within m dir (resolve_path dir cwd))) [
          | inl inside ↦ rw (given, inside) (resolve_path-abs dir cwd h)
          | inr outside ↦ rw (given, outside) h
        ]
]

-- Where a write lands.
abbrev pub landing : Machine → Word → Word → Word → Word
landing m dir cwd file = resolve_path (last_base (base_dirs m dir cwd)) file

may_write_of :
    (blank covered here there : Bool) (nothing prot outside : Denial)
    → (if blank
        then deny nothing
        else if covered
        then deny prot
        else if not here && not there
        then deny outside
        else allow)
      ≡ allow
    → (here ≡ true) ⊎ (there ≡ true)
may_write_of true covered here there nothing prot outside e = absurd (cc)
may_write_of false true here there nothing prot outside e = absurd (cc)
may_write_of false false true there nothing prot outside e = inl refl
may_write_of false false false true nothing prot outside e = inr refl
may_write_of false false false false nothing prot outside e = absurd (cc)

decide_file-lands :
    (m : Machine) (p : Policy) (dir cwd file : Word)
    → decide_file m p dir (base_dirs m dir cwd) file ≡ allow
    → (within m dir (landing m dir cwd file) ≡ true)
      ⊎ (within m m.temp_dir (landing m dir cwd file) ≡ true)
unfolding decide_file
decide_file-lands m p dir cwd file e =
    may_write_of (is_empty (trim file blanks))
      (protected m p.protected_paths dir (base_dirs m dir cwd) file false false)
      (within m dir (landing m dir cwd file)) (within m m.temp_dir (landing m dir cwd file)) _ _ _ e

-- A write inside the checkout or the temporary directory.
abbrev pub LandsInside : Machine → Word → Word → Word → Type 0
LandsInside m dir cwd file =
    IsWithin m dir (landing m dir cwd file) ⊎ IsWithin m m.temp_dir (landing m dir cwd file)

decide_write-LandsInside :
    (m : Machine) (p : Policy) (dir cwd : Word) (answer : Option Word)
    → ResolvesAbs m
    → is_abs dir ≡ true
    → is_abs m.temp_dir ≡ true
    → decide_write m p dir (base_dirs m dir cwd) answer ≡ allow
    → (file : Word) × ((answer ≡ some file) × LandsInside m dir cwd file)
unfolding decide_write
decide_write-LandsInside m p dir cwd none resolves h h' e = absurd (cc)
decide_write-LandsInside m p dir cwd (some file) resolves h h' e =
    let lands =
      resolve_path-abs (last_base (base_dirs m dir cwd)) file (last_base-abs m dir cwd h) in
    (
      file,
      (
        refl,
        elim (decide_file-lands m p dir cwd file e) [
          | inl here ↦ inl (within-IsWithin m dir (landing m dir cwd file) resolves h lands here)
          | inr there ↦
              inr (within-IsWithin m m.temp_dir (landing m dir cwd file) resolves h' lands there)
        ],
      ),
    )

shell_writes_none : writes_file (bytes "execute") ≡ false
unfolding same_word
shell_writes_none = refl

no_shell : (tool : Word) → writes_file tool ≡ true → (tool == bytes "execute") ≡ false
no_shell tool e = elim (Bool-cases (tool == bytes "execute")) [
  | inl same ↦
      let is_shell = (same_word_iff tool (bytes "execute")).0 same in
      absurd (cc (ap writes_file is_shell, shell_writes_none, e))
  | inr differs ↦ differs
]

-- A call of a tool that writes a file, where it is allowed, names a path. On a machine whose links of
-- absolute paths lead to absolute paths, and where the checkout and the temporary directory are
-- absolute, this path lands inside one of the two, read in the last directory the call may be in: the
-- components of the place begin with those of the directory, as they are written or with the links
-- of both resolved.
pub decide_at-LandsInside :
    (r : Reading) (m : Machine) (p : Policy) (given cwd tool : Word) (input : Word → Option Word)
    → ResolvesAbs m
    → is_abs given ≡ true
    → is_abs m.temp_dir ≡ true
    → writes_file tool ≡ true
    → decide_at r m p given cwd tool input ≡ allow
    → (file : Word) × ((input (bytes "path") ≡ some file) × LandsInside m given cwd file)
unfolding decide_at has_prefix
decide_at-LandsInside r m p [] cwd tool input resolves h h' writes e = absurd (cc)
decide_at-LandsInside r m p (c ∷ given) cwd tool input resolves h h' writes e =
    decide_write-LandsInside m p (c ∷ given) cwd (input (bytes "path")) resolves h h'
      (rw (no_shell tool writes, writes) at e)
