-- ===== src/Policy/Nesting.antt =====
-- Why runs of internal/policy/policy.go ends: the commands that find executes are shorter than find.
use mathlib.Core.Option
use agent_fox.Policy.Flatten.{runs, together, script_segments, rounds_of}
use agent_fox.Policy.Text.{bytes, Word_Eq, Word, Words}
use agent_fox.Policy.Skipping.{skip_prefix-size, size-drop-le, size-append}
use agent_fox.Table.Every.{Each, Each-map}
use agent_fox.Policy.Prefix.{size, skip_prefix}
use agent_fox.Policy.Segments.{
  executed, new_segment, embedded, Command, Segment, with_command, embedded_command, program,
  executes, ends_command,
}
use agent_fox.Prelude.{
  false, true, Option, ℕ, some, ◌+◌, List, ◌≤◌, arith, none, ◌∷◌, map, Bool-cases, [], ◌==◌, inl,
  inr, ◌≡◌, suc, is_some, refl, true, ap, ◌++◌, zero, subst, ◌↔◌,
}

-- The command that is being read, and whether there is one.
abbrev pending : Option Words → ℕ
pending none = 0
pending (some words) = size words + 1

abbrev IsShorter : ℕ → Words → Type 0
IsShorter n words = size words + 1 ≤ n

with_command-Each :
    (n : ℕ) (words : Words) (more : List Words)
    → IsShorter n words
    → Each (IsShorter n) more
    → Each (IsShorter n) (with_command words more)
with_command-Each n [] more h later = later
with_command-Each n (w ∷ words) more h later = (h, later)

executed-Each :
    (n : ℕ) (args : Words) (now : Option Words)
    → pending now + size args ≤ n
    → Each (IsShorter n) (executed now args)
unfolding executed size
executed-Each n [] none h = tt
executed-Each n [] (some words) h = with_command-Each n words [] (omega arith) tt
executed-Each n (a ∷ args) none h =
    elim (executes a)
      as (λ b.
        Each (IsShorter n)
          (elim b [ true ↦ executed (some []) args | false ↦ executed none args ])) [
            | true ↦ executed-Each n args (some []) (unfold size in omega arith)
            | false ↦ executed-Each n args none (omega arith)
          ]
executed-Each n (a ∷ args) (some words) h =
    elim (ends_command a)
      as (λ b. Each (IsShorter n) (elim b [
        | true ↦ with_command words (executed none args)
        | false ↦ executed (some (words ++ a ∷ [])) args
      ])) [
        | true ↦
            with_command-Each n words (executed none args) (omega arith)
              (executed-Each n args none (omega arith))
        | false ↦
            executed-Each n args (some (words ++ a ∷ []))
              (omega (arith, size-append words (a ∷ [])))
      ]

new_segment-size : (c : Command) → size (new_segment c).args ≤ size c.words
unfolding new_segment
new_segment-size c =
    omega (arith, skip_prefix-size c.words, size-drop-le 1 (skip_prefix c.words).argv)

abbrev IsInside : ℕ → Segment → Type 0
IsInside n s = size s.args + 1 ≤ n

embedded_commands :
    (n : ℕ) (s : Segment) (commands : List Words)
    → Each (IsShorter n) commands
    → Each (IsInside n) (map (embedded_command s) commands)
embedded_commands n s [] h = tt
embedded_commands n s (words ∷ commands) (shorter, later) =
    let kept = new_segment-size (record { text = s.text; words = words; redirects = [] }) in
    (omega (arith, kept, shorter), embedded_commands n s commands later)

embedded-Each : (n : ℕ) (s : Segment) → size s.args ≤ n → Each (IsInside n) (embedded s)
unfolding embedded
embedded-Each n s h = elim (Bool-cases (program s == bytes "find")) [
  | inl e ↦ rw e (embedded_commands n s _ (executed-Each n s.args none (omega (arith, h))))
  | inr e ↦ rw e tt
]

map_agree {ℓ κ} :
    {A : Type ℓ} {B : Type κ} (f g : A → B) (xs : List A)
    → Each (λ x. f x ≡ g x) xs
    → map f xs ≡ map g xs
map_agree f g [] h = refl
map_agree f g (x ∷ xs) (first, later) = cc (first, map_agree f g xs later)

is_some-map {ℓ κ} :
    {A : Type ℓ} {B : Type κ} (f : A → B) (o : Option A)
    → is_some o ≡ true
    → is_some (Option.map f o) ≡ true
is_some-map f none h = h
is_some-map f (some a) h = refl

together-some {ℓ} :
    {A : Type ℓ} (xs : List (Option (List A)))
    → Each (λ o. is_some o ≡ true) xs
    → is_some (together xs) ≡ true
unfolding together
together-some [] h = refl
together-some (none ∷ xs) (first, later) = first
together-some (some x ∷ xs) (first, later) =
    is_some-map (λ ys. x ++ ys) (together xs) (together-some xs later)

Each-map_append {ℓ κ μ} :
    {A : Type ℓ} {B : Type κ} (P : B → Type μ) (f : A → B) (xs : List A) (y : B)
    → Each (λ x. P (f x)) xs
    → P y
    → Each P (map f xs ++ y ∷ [])
Each-map_append P f [] y h last = (last, tt)
Each-map_append P f (x ∷ xs) y (first, later) last = (first, Each-map_append P f xs y later last)

-- A command that another one executes: itself, or one that a command of its find executes.
pub data Executes (t : Segment) : Segment → Type 0 where
  itself : Executes t t
  inside :
      {s : Segment} (before : List Segment) (e : Segment) (after : List Segment)
      → embedded s ≡ before ++ e ∷ after
      → Executes t e
      → Executes t s

-- The script that a command runs, if it does, can be read.
abbrev pub IsReadable : (Word → Option (List Segment)) → Segment → Type 0
IsReadable nested t = (w : Word) → t.script ≡ some w → is_some (nested w) ≡ true

Each-among {ℓ κ} :
    {A : Type ℓ} (P : A → Type κ) (before : List A) (x : A) (after : List A)
    → Each P (before ++ x ∷ after)
    → P x
Each-among P [] x after (first, later) = first
Each-among P (y ∷ before) x after (first, later) = Each-among P before x after later

-- What holds of each one among others.
among-Each {ℓ κ} :
    {A : Type ℓ} (P : A → Type κ) (xs : List A)
    → ((before : List A) (x : A) (after : List A) → xs ≡ before ++ x ∷ after → P x)
    → Each P xs
among-Each P [] h = tt
among-Each P (x ∷ xs) h = (
  h [] x xs refl,
  among-Each P xs (λ before y after e. h (x ∷ before) y after (ap (λ l. x ∷ l) e)),
)

Each-and {ℓ κ μ} :
    {A : Type ℓ} (P : A → Type κ) (Q : A → Type μ) (xs : List A)
    → Each P xs
    → Each Q xs
    → Each (λ x. P x × Q x) xs
Each-and P Q [] h k = tt
Each-and P Q (x ∷ xs) (first, later) (first', later') =
    ((first, first'), Each-and P Q xs later later')

is_some-map_of {ℓ κ} :
    {A : Type ℓ} {B : Type κ} (f : A → B) (o : Option A)
    → is_some (Option.map f o) ≡ true
    → is_some o ≡ true
is_some-map_of f none h = h
is_some-map_of f (some a) h = refl

together-some_of {ℓ} :
    {A : Type ℓ} (xs : List (Option (List A)))
    → is_some (together xs) ≡ true
    → Each (λ o. is_some o ≡ true) xs
unfolding together
together-some_of [] h = tt
together-some_of (none ∷ xs) h = absurd (cc)
together-some_of (some x ∷ xs) h = (refl, together-some_of xs (is_some-map_of _ (together xs) h))

map_append-Each {ℓ κ μ} :
    {A : Type ℓ} {B : Type κ} (P : B → Type μ) (f : A → B) (xs : List A) (y : B)
    → Each P (map f xs ++ y ∷ [])
    → Each (λ x. P (f x)) xs × P y
map_append-Each P f [] y (last, h) = (tt, last)
map_append-Each P f (x ∷ xs) y (first, later) =
    let (each, last) = map_append-Each P f xs y later in ((first, each), last)

module _ (nested : Word → Option (List Segment)) where
  runs_agree :
      (n k : ℕ) (s : Segment)
      → size s.args + 1 ≤ n
      → size s.args + 1 ≤ k
      → runs nested n s ≡ runs nested k s
  unfolding runs
  runs_agree zero k s h h' = absurd (omega arith)
  runs_agree (suc n) zero s h h' = absurd (omega arith)
  runs_agree (suc n) (suc k) s h h' =
      let same = map_agree (runs nested n) (runs nested k) (embedded s) (
        Each-map (λ e inside. runs_agree n k e (omega arith) (omega arith)) (embedded s)
          (embedded-Each (size s.args) s (omega arith))) in
      ap (λ l. together (some (s ∷ []) ∷ (l ++ script_segments nested s.script ∷ []))) same

  script_segments-some :
      (script : Option Word)
      → ((w : Word) → script ≡ some w → is_some (nested w) ≡ true)
      → is_some (script_segments nested script) ≡ true
  script_segments-some none reads = refl
  script_segments-some (some w) reads = reads w refl

  some-script_segments :
      (script : Option Word)
      → is_some (script_segments nested script) ≡ true
      → (w : Word) → script ≡ some w
      → is_some (nested w) ≡ true
  some-script_segments none h w e = absurd (cc)
  some-script_segments (some v) h w e = let same : v ≡ w = cc in rw (← same) h

  abbrev AllReadable : Segment → Type 0
  AllReadable s = (t : Segment) → Executes t s → IsReadable nested t

  runs-some :
      (n : ℕ) (s : Segment) → AllReadable s → size s.args + 1 ≤ n → is_some (runs nested n s) ≡ true
  unfolding runs
  runs-some zero s reads h = absurd (omega arith)
  runs-some (suc n) s reads h =
      let below : Each AllReadable (embedded s) =
        among-Each AllReadable (embedded s)
          (λ before e after eq t executed_. reads t (inside before e after eq executed_)) in
      together-some
        (some (s ∷ []) ∷ (map (runs nested n) (embedded s) ++ script_segments nested s.script ∷ []))
        (
          refl,
          Each-map_append (λ o. is_some o ≡ true) (runs nested n) (embedded s) _
              (Each-map (λ e both. runs-some n e both.0 (omega (arith, both.1))) (embedded s)
                (Each-and AllReadable (IsInside (size s.args)) (embedded s) below
                  (embedded-Each (size s.args) s (omega arith))))
              (script_segments-some s.script (reads s itself)),
        )

  some-runs :
      (n : ℕ) (s t : Segment)
      → is_some (runs nested n s) ≡ true
      → Executes t s
      → IsReadable nested t
  unfolding runs
  some-runs zero s t h there = absurd (cc)
  some-runs (suc n) s t h itself =
      let (first, later) =
        together-some_of
          (some (s ∷ [])
            ∷ (map (runs nested n) (embedded s) ++ script_segments nested s.script ∷ []))
          h in
      let (each, last) =
        map_append-Each (λ o. is_some o ≡ true) (runs nested n) (embedded s)
          (script_segments nested s.script) later in
      some-script_segments s.script last
  some-runs (suc n) s t h (inside before e after eq there) =
      let (first, later) =
        together-some_of
          (some (s ∷ [])
            ∷ (map (runs nested n) (embedded s) ++ script_segments nested s.script ∷ []))
          h in
      let (each, last) =
        map_append-Each (λ o. is_some o ≡ true) (runs nested n) (embedded s)
          (script_segments nested s.script) later in
      some-runs n e t
        (Each-among (λ x. is_some (runs nested n x) ≡ true) before e after
          (subst (Each (λ x. is_some (runs nested n x) ≡ true)) eq each))
        there

-- In the rounds that flatten gives, or more, the commands that a command runs are found exactly if the
-- scripts of the commands that it executes, through find and nested finds, can be read; and more
-- rounds give no other commands.
pub runs_ends :
    (nested : Word → Option (List Segment)) (s : Segment) (n : ℕ)
    → rounds_of s ≤ n
    → (runs nested n s ≡ runs nested (rounds_of s) s)
      × ((is_some (runs nested n s) ≡ true) ↔ ((t : Segment) → Executes t s → IsReadable nested t))
runs_ends nested s n h = (
  runs_agree nested n (rounds_of s) s h (omega arith),
  (λ found t there. some-runs nested n s t found there, λ reads. runs-some nested n s reads h),
)
