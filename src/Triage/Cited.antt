-- ===== src/Triage/Cited.antt =====
-- What a path is that resolve of internal/triage/validate.go has found.
use agent_fox.Policy.Paths.{clean, is_abs}
use agent_fox.Policy.Integers.{Int64, zero_int, atoi}
use agent_fox.Policy.Text.{Word, is_digits, contains, bytes, same_word_iff, Word_Eq, split, slash}
use agent_fox.Triage.{
  last_colon, Validator, Int64, Resolved, colon, found, hidden, is_regular, unresolved, colon_line,
  with_line, before_colon, resolve_colon, resolved_or, resolve_missing, resolve_clean,
  resolve_relative, resolve_cited, is_colon_line, link_at, directory, outside_root, drop_here,
  missing, to_slashes, same_name, clean, is_abs, drive_letter, under_root,
}
use agent_fox.Prelude.{
  true, false, none, some, refl, [], inl, inr, if◌then◌else◌, ◌≡◌, Bool, Option, ◌++◌, ◌≢◌, ◌∷◌,
  Option-cases, Bool-cases, nat_eq, nat_eq_iff, ap, ◌&&◌, ◌==◌, arith, not, is_empty, ◌||◌,
}

abbrev IsSome : Option (Word × Word) → Word × Word → Type 0
IsSome o answer = o ≡ some answer

last_colon_of :
    (s before after : Word) → last_colon s ≡ some (before, after) → s ≡ before ++ colon ∷ after
unfolding last_colon
last_colon_of [] before after e = cc
last_colon_of (c ∷ s) before after e = elim (Option-cases (last_colon s)) [
  | inl nothing ↦ elim (Bool-cases (nat_eq c colon)) [
    | inl is_colon ↦
        let c_eq = (nat_eq_iff c colon).0 is_colon in
        let e' : IsSome (some ([], s)) (before, after) = rw (nothing, is_colon) at e in
        let before_eq : [] ≡ before = cc in
        let after_eq : s ≡ after = cc in rw (← before_eq, ← after_eq, c_eq) refl
    | inr other ↦ let e' : IsSome none (before, after) = rw (nothing, other) at e in cc
  ]
  | inr ((h, d), there) ↦
      let e' : IsSome (some (c ∷ h, d)) (before, after) = rw there at e in
      let later = last_colon_of s h d there in
      let before_eq : c ∷ h ≡ before = cc in
      let after_eq : d ≡ after = cc in rw (← before_eq, ← after_eq) (ap (λ w. c ∷ w) later)
]

third_of : (a b c : Bool) → (a && b && c) ≡ true → c ≡ true
third_of a b c = ground arith

not_same : (v w : Word) → (v == w) ≡ false → v ≢ w
not_same v w differs same = let is_same = (same_word_iff v w).1 same in cc

-- A path with a line: a file of the tree, with the line after it.
abbrev pub CitesLine : Validator → Bool → Word → Int64 → Type 0
CitesLine v has_line file n =
    (has_line ≡ false)
    × (digits : Word) × ((is_digits digits ≡ true)
        × (atoi digits ≡ some n)
        × (contains v.tree.files (file ++ colon ∷ digits) ≡ false)
        × (hidden (file ++ colon ∷ digits) ≡ false))

abbrev pub CitesPlain : Word → Int64 → Type 0
CitesPlain file n = (n ≡ zero_int) × (file ≢ bytes ".") × (hidden file ≡ false)

abbrev pub IsCited : Validator → Bool → Resolved → Type 0
IsCited v has_line (found file n used_colon) =
    (contains v.tree.files file ≡ true)
    × (is_regular v file ≡ true)
    × (if used_colon then CitesLine v has_line file n else CitesPlain file n)
IsCited v has_line (unresolved problem) = Unit

IsCited-if :
    (v : Validator) (has_line b : Bool) (x y : Resolved)
    → (b ≡ true → IsCited v has_line x)
    → (b ≡ false → IsCited v has_line y)
    → IsCited v has_line (if b then x else y)
IsCited-if v has_line true x y h k = h refl
IsCited-if v has_line false x y h k = k refl

abbrev IsCitedOption : Validator → Bool → Option Resolved → Type 0
IsCitedOption v has_line none = Unit
IsCitedOption v has_line (some r) = IsCited v has_line r

IsCitedOption-if :
    (v : Validator) (has_line b : Bool) (x : Option Resolved)
    → (b ≡ true → IsCitedOption v has_line x)
    → IsCitedOption v has_line (if b then x else none)
IsCitedOption-if v has_line true x h = h refl
IsCitedOption-if v has_line false x h = tt

IsCitedOption-unless :
    (v : Validator) (has_line b : Bool) (x : Option Resolved)
    → (b ≡ false → IsCitedOption v has_line x)
    → IsCitedOption v has_line (if b then none else x)
IsCitedOption-unless v has_line true x h = tt
IsCitedOption-unless v has_line false x h = h refl

-- The text is a path, a colon and digits.
abbrev EndsInLine : Word → Word → Word → Type 0
EndsInLine p file digits = (p ≡ file ++ colon ∷ digits) × (is_digits digits ≡ true)

colon_line-EndsInLine :
    (p file digits : Word) → colon_line p ≡ some (file, digits) → EndsInLine p file digits
unfolding colon_line
colon_line-EndsInLine p file digits e = elim (Option-cases (last_colon p)) [
  | inl nothing ↦ absurd (let e' : IsSome none (file, digits) = rw (colon_line, nothing) at e in cc)
  | inr ((b, a), there) ↦ elim (Bool-cases (is_colon_line b a)) [
    | inl line ↦
        let e' : IsSome (some (b, a)) (file, digits) = rw (colon_line, there, line) at e in
        let file_eq : b ≡ file = cc in
        let digits_eq : a ≡ digits = cc in
        let ends : is_digits a ≡ true = third_of (not (is_empty b)) _ (is_digits a) line in
        rw (← file_eq, ← digits_eq) (last_colon_of p b a there, ends)
    | inr other ↦
        absurd (let e' : IsSome none (file, digits) = rw (colon_line, there, other) at e in cc)
  ]
]

module _ (v : Validator) (has_line : Bool) where
  with_line-IsCited :
      (file : Word) (o : Option Int64)
      → contains v.tree.files file ≡ true
      → ((n : Int64) → o ≡ some n → CitesLine v has_line file n)
      → IsCitedOption v has_line (with_line v file o)
  with_line-IsCited file none there cites = tt
  with_line-IsCited file (some n) there cites =
      IsCited-if v has_line (is_regular v file) (found file n true) (unresolved (link_at file))
        (λ regular. (there, regular, cites n refl)) (λ other. tt)

  before_colon-IsCited :
      (p : Word) (answer : Option (Word × Word))
      → has_line ≡ false
      → contains v.tree.files p ≡ false
      → hidden p ≡ false
      → ((file digits : Word) → answer ≡ some (file, digits) → EndsInLine p file digits)
      → IsCitedOption v has_line (before_colon v answer)
  before_colon-IsCited p none free absent shown ends = tt
  before_colon-IsCited p (some (file, digits)) free absent shown ends =
      let (p_eq, all) = ends file digits refl in
      IsCitedOption-if v has_line (contains v.tree.files file) (with_line v file (atoi digits))
        λ there.
          with_line-IsCited file (atoi digits) there
            λ n line. (free, digits, (all, line, rw (← p_eq) absent, rw (← p_eq) shown))

  resolve_colon-IsCited :
      (p : Word)
      → contains v.tree.files p ≡ false
      → hidden p ≡ false
      → IsCitedOption v has_line (resolve_colon v p has_line)
  unfolding resolve_colon
  resolve_colon-IsCited p absent shown =
      IsCitedOption-unless v has_line has_line (before_colon v (colon_line p))
        λ free. before_colon-IsCited p (colon_line p) free absent shown (colon_line-EndsInLine p)

  resolved_or-IsCited :
      (o : Option Resolved) (r : Resolved)
      → IsCitedOption v has_line o
      → IsCited v has_line r
      → IsCited v has_line (resolved_or o r)
  resolved_or-IsCited none r first later = later
  resolved_or-IsCited (some a) r first later = first

  resolve_missing-IsCited : (p : Word) → IsCited v has_line (resolve_missing v p)
  unfolding resolve_missing
  resolve_missing-IsCited p =
      IsCited-if v has_line (contains v.dirs p) (unresolved directory)
        (unresolved (missing (same_name v p))) (λ dir. tt) (λ other. tt)

  resolve_clean-IsCited : (p : Word) → IsCited v has_line (resolve_clean v p has_line)
  unfolding resolve_clean
  resolve_clean-IsCited p =
      IsCited-if v has_line (p == bytes ".") _ _ (λ whole. tt)
        λ part.
          IsCited-if v has_line (hidden p) _ _ (λ hides. tt)
            λ shown.
              IsCited-if v has_line (contains v.tree.files p) _ _
                (λ there.
                  IsCited-if v has_line (is_regular v p) _ _
                    (λ regular. (there, regular, (refl, not_same p (bytes ".") part, shown)))
                    (λ other. tt))
                (λ absent.
                  resolved_or-IsCited (resolve_colon v p has_line) (resolve_missing v p)
                    (resolve_colon-IsCited p absent shown) (resolve_missing-IsCited p))

  resolve_relative-IsCited : (p : Word) → IsCited v has_line (resolve_relative v p has_line)
  unfolding resolve_relative
  resolve_relative-IsCited p =
      IsCited-if v has_line (contains (split p slash) (bytes "..")) _ _ (λ climbing. tt)
        (λ stays. resolve_clean-IsCited (clean p))

  inside-IsCited :
      (o : Option Word)
      → IsCited v has_line (elim o [
        | some inside ↦ resolve_relative v inside has_line
        | none ↦ unresolved outside_root
      ])
  inside-IsCited none = tt
  inside-IsCited (some inside) = resolve_relative-IsCited inside

-- A path that is resolved is one of the files of the tree, and regular. Where no line was read from
-- it, it is not the tree itself and not below .git or .agent-fox. Where one was, no other line was
-- given, the path with the colon and the digits is no file of the tree, and it is not below these
-- directories.
pub resolve_cited-IsCited :
    (v : Validator) (cited : Word) (has_line : Bool)
    → IsCited v has_line (resolve_cited v cited has_line)
unfolding resolve_cited
resolve_cited-IsCited v cited has_line =
    let p = drop_here (to_slashes cited) in
    IsCited-if v has_line (is_abs p || drive_letter p) _ _
      (λ absolute. inside-IsCited v has_line (under_root v.trimmed p))
      (λ relative. resolve_relative-IsCited v has_line p)
