-- ===== src/Policy/Lines.antt =====
-- When a command line is allowed: what decideShell of internal/policy/policy.go makes of the
-- commands in it, each of them after the ones in front of it.
use agent_fox.Policy.Flatten.{flatten, max_depth}
use agent_fox.Policy.Git.{Denial, allow}
use agent_fox.Policy.Judge.{
  after_cd, judge_all, judge, with_exports, decide_command, Reading, max_command_bytes, decided,
}
use agent_fox.Policy.Text.{Word, Words}
use agent_fox.Policy.Commands.{Policy}
use agent_fox.Policy.Segments.{Segment, exports, changes_directory}
use agent_fox.Policy.Paths.{Machine}
use agent_fox.Prelude.{
  List, Option, or_else, ◌∷◌, ◌≡◌, ◌++◌, none, ◌↔◌, [], arith, refl, some, append_nil, append_assoc,
  ap, length, ◌≤◌, ◌+◌, false, sym, ltb, ◌∙◌, Bool-cases, inl, inr, Option-cases,
}

-- Where the commands before one have gone, and what they have put in the environment.
abbrev pub bases_after : Words → List Segment → Words
bases_after bases [] = bases
bases_after bases (s ∷ before) = bases_after (after_cd bases (changes_directory s)) before

abbrev pub exported_by : List Segment → Words
exported_by [] = []
exported_by (s ∷ before) = exports s ++ exported_by before

-- Every command passes the rules, in the directories and with the environment that the ones before
-- it leave.
abbrev pub EachPasses : Machine → Policy → Word → Words → List Segment → Type 0
EachPasses m p dir bases segments =
    (before : List Segment) (s : Segment) (after : List Segment)
    → segments ≡ before ++ s ∷ after
    → judge m p dir (bases_after bases before) (with_exports s (exported_by before)) ≡ none

pub or_else-none {ℓ} :
    {A : Type ℓ} (a b : Option A) → (or_else a b ≡ none) ↔ ((a ≡ none) × (b ≡ none))
or_else-none none b = ground arith
or_else-none (some a) b = ground arith

module _ (m : Machine) (p : Policy) (dir : Word) where
  abbrev Passes : Words → Words → List Segment → Type 0
  Passes bases exported segments =
      (before : List Segment) (s : Segment) (after : List Segment)
      → segments ≡ before ++ s ∷ after
      → judge m p dir (bases_after bases before) (with_exports s (exported ++ exported_by before))
        ≡ none

  judge_all-Passes :
      (segments : List Segment) (bases exported : Words)
      → judge_all m p dir bases exported segments ≡ none
      → Passes bases exported segments
  unfolding judge_all
  judge_all-Passes [] bases exported h [] s after e = cc
  judge_all-Passes [] bases exported h (t ∷ before) s after e = cc
  judge_all-Passes (s' ∷ segments) bases exported h [] s after e =
      let s_eq : s' ≡ s = cc in
      let found = (or_else-none (judge m p dir bases (with_exports s' exported)) _).0 h in
      rw (← s_eq, append_nil exported) found.0
  judge_all-Passes (s' ∷ segments) bases exported h (t ∷ before) s after e =
      let s_eq : s' ≡ t = cc in
      let tail_eq : segments ≡ before ++ s ∷ after = cc in
      let found = (or_else-none (judge m p dir bases (with_exports s' exported)) _).0 h in
      let later =
        judge_all-Passes segments (after_cd bases (changes_directory s')) (exported ++ exports s')
          found.1 before s after tail_eq in
      rw (← s_eq, ← append_assoc exported (exports s') (exported_by before)) later

  Passes-judge_all :
      (segments : List Segment) (bases exported : Words)
      → Passes bases exported segments
      → judge_all m p dir bases exported segments ≡ none
  unfolding judge_all
  Passes-judge_all [] bases exported h = refl
  Passes-judge_all (s ∷ segments) bases exported h =
      let first : judge m p dir bases (with_exports s exported) ≡ none =
        rw (append_nil exported) at (h [] s segments refl) in
      (or_else-none (judge m p dir bases (with_exports s exported)) _).1 (
        first,
        Passes-judge_all segments (after_cd bases (changes_directory s)) (exported ++ exports s)
            λ before t after e.
              rw (append_assoc exported (exports s) (exported_by before))
                (h (s ∷ before) t after (ap (λ l. s ∷ l) e)),
      )

decided_allow : (o : Option Denial) → (decided o ≡ allow) ↔ (o ≡ none)
decided_allow none = ground arith
decided_allow (some d) = (λ e. cc, λ e. cc)

module _ (r : Reading) (m : Machine) (p : Policy) (dir : Word) (bases : Words)
    (command : Word) where
  abbrev IsRead : List Segment → Type 0
  IsRead segments =
      (length command ≤ max_command_bytes)
      × (flatten r.parse (max_depth + 1) command ≡ some segments)
      × (r.refuses command ≡ false)

  decide_read :
      (segments : List Segment)
      → IsRead segments
      → decide_command r m p dir bases command ≡ decided (judge_all m p dir bases [] segments)
  unfolding decide_command
  decide_read segments (short, read, kept) =
      let within_limit : ltb max_command_bytes (length command) ≡ false = ground arith in
      rw (within_limit, read, kept) refl

  allowed-IsRead :
      decide_command r m p dir bases command ≡ allow → (segments : List Segment) × IsRead segments
  unfolding decide_command
  allowed-IsRead h = elim (Bool-cases (ltb max_command_bytes (length command))) [
    | inl e ↦ absurd (ground (arith, h, e))
    | inr e ↦ elim (Option-cases (flatten r.parse (max_depth + 1) command)) [
      | inl e' ↦ absurd (ground (arith, h, e, e'))
      | inr (segments, e') ↦ elim (Bool-cases (r.refuses command)) [
        | inl e'' ↦ absurd (ground (arith, h, e, e', e''))
        | inr e'' ↦ (segments, (ground (arith, e), e', e''))
      ]
    ]
  ]

-- A command line is allowed exactly if it is not too long, it can be read with certainty, the
-- guard does not refuse it, and each of its commands passes the rules after the ones before it.
pub decide_command_allows :
    (r : Reading) (m : Machine) (p : Policy) (dir : Word) (bases : Words) (command : Word)
    → (decide_command r m p dir bases command ≡ allow) ↔ (
        (segments : List Segment) × (length command ≤ max_command_bytes)
        × (flatten r.parse (max_depth + 1) command ≡ some segments)
        × (r.refuses command ≡ false)
        × EachPasses m p dir bases segments)
decide_command_allows r m p dir bases command = (
  λ h.
      let (segments, read) = allowed-IsRead r m p dir bases command h in
      let verdict = decide_read r m p dir bases command segments read in
      let passed = (decided_allow (judge_all m p dir bases [] segments)).0 (sym verdict ∙ h) in
      (segments, read.0, read.1, read.2, judge_all-Passes m p dir segments bases [] passed),
  λ (segments, short, read, kept, passes).
      let verdict = decide_read r m p dir bases command segments (short, read, kept) in
      let passed = Passes-judge_all m p dir segments bases [] passes in
      verdict ∙ (decided_allow _).1 passed,
)
