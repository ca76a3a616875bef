-- ===== src/Policy/Passing.antt =====
-- The rules of internal/policy/policy.go, one by one: what a command that passes the rule is.
use agent_fox.Policy.Flatten.{flatten, max_depth}
use agent_fox.Policy.Lines.{or_else-none, bases_after, exported_by, decide_command_allows}
use agent_fox.Policy.Judge.{judge, Reading, decide_command, with_exports}
use agent_fox.Policy.Targets.{write_targets}
use agent_fox.Policy.FindTargets.{Target}
use agent_fox.Policy.Permitted.{
  IsUnprotected, IsBrainCommand, IsReadingGit, sub_passes, git_subcommand-reads, IsPermitted,
}
use agent_fox.Table.Every.{Each, Each-map, exists_where-Each}
use agent_fox.Policy.Protected.{path_rule, protected, protected_from, covers, covered}
use agent_fox.Policy.Git.{git_rule, sets_git, git_environment, git_subcommand, allow}
use agent_fox.Policy.Segments.{Segment, program}
use agent_fox.Policy.Text.{Word, same_word_iff, bytes, contains, Word_Eq, Words}
use agent_fox.Policy.Paths.{Machine}
use agent_fox.Table.{exists_where}
use agent_fox.Policy.Commands.{
  same_words, begins_with, Policy, suite_rule, af_rule, program_rule, is_af_or_git, suite_form,
  af_words, builtins, is_suite, af_allowed, input_rule,
}
use agent_fox.Prelude.{
  List, ◌≢◌, is_empty, Bool, [], ◌≡◌, false, true, ◌∷◌, arith, ◌↔◌, ◌++◌, Bool-cases, none, refl,
  inl, inr, ◌⊎◌, ◌==◌, ==_iff, ◌&&◌, ◌+◌, some,
}

is_empty_ne {ℓ} : {A : Type ℓ} (xs : List A) → xs ≢ [] → is_empty xs ≡ false
is_empty_ne [] h = absurd (h refl)
is_empty_ne (x ∷ xs) h = refl

nil_of_empty {ℓ} : {A : Type ℓ} (xs : List A) → is_empty xs ≡ true → xs ≡ []
nil_of_empty [] h = refl
nil_of_empty (x ∷ xs) h = absurd (ground (arith, h))

==_holds : {v w : Word} → v ≡ w → (v == w) ≡ true
==_holds {v} {w} e = (==_iff v w).1 e

same_words_iff : (v w : Words) → (same_words v w ≡ true) ↔ (v ≡ w)
unfolding same_words
same_words_iff [] [] = ground arith
same_words_iff (a ∷ v) [] = ground arith
same_words_iff [] (b ∷ w) = ground arith
same_words_iff (a ∷ v) (b ∷ w) = ground (arith, same_word_iff a b, same_words_iff v w)

begins_with-append :
    (words form : Words) → begins_with words form ≡ true → (more : Words) × (words ≡ form ++ more)
unfolding begins_with
begins_with-append words [] h = (words, refl)
begins_with-append [] (b ∷ form) h = absurd (ground (arith, h))
begins_with-append (a ∷ words) (b ∷ form) h =
    let begins : begins_with words form ≡ true = ground (arith, h) in
    let same : a ≡ b = ground (arith, h, same_word_iff a b) in
    let (more, rest_of) = begins_with-append words form begins in (more, cc (same, rest_of))

-- A row that meets the test.
exists_where-found {ℓ} :
    {A : Type ℓ} (test : A → Bool) (rs : List A)
    → exists_where test rs ≡ true
    → (r : A) × ((test r ≡ true) × ((u : A → Bool) → u r ≡ true → exists_where u rs ≡ true))
unfolding exists_where
exists_where-found test [] h = absurd (ground (arith, h))
exists_where-found test (r ∷ rs) h = elim (Bool-cases (test r)) [
  | inl e ↦ (r, (e, λ u e'. ground (arith, e')))
  | inr e ↦
      let later : exists_where test rs ≡ true = ground (arith, h, e) in
      let (q, (met, again)) = exists_where-found test rs later in
      (q, (met, λ u e'. let deeper = again u e' in ground (arith, deeper)))
]

module _ (m : Machine) (p : Policy) (dir : Word) (bases : Words) (s : Segment) where
  pub git_rule_permits :
      git_rule s ≡ none
      → s.prog ≢ []
      → program s ≡ bytes "git"
      → Each (λ a. sets_git a ≡ false) s.assigns × IsReadingGit s.args
  unfolding git_rule
  git_rule_permits h started is_git =
      let named : (program s == bytes "git") ≡ true = ==_holds is_git in
      let kept : git_environment s.assigns ≡ false =
        ground (arith, h, is_empty_ne s.prog started, named) in
      let passes : sub_passes (git_subcommand false s.args) ≡ true =
        ground (arith, h, is_empty_ne s.prog started, named, kept) in
      (exists_where-Each sets_git s.assigns kept, git_subcommand-reads s.args passes)

  pub suite_rule_permits :
      suite_rule p s ≡ none
      → s.prog ≢ []
      → Each (λ form. suite_form form ≢ [] → suite_form (s.prog ∷ s.args) ≢ suite_form form) p.suite
  unfolding suite_rule
  suite_rule_permits h started =
      let none_is : exists_where (is_suite (s.prog ∷ s.args)) p.suite ≡ false =
        ground (arith, h, is_empty_ne s.prog started) in
      Each-map
        (λ form other given same. absurd (
          ground (
            arith,
            other,
            is_empty_ne (suite_form form) given,
            (same_words_iff (suite_form (s.prog ∷ s.args)) (suite_form form)).1 same,
          )))
        p.suite (exists_where-Each (is_suite (s.prog ∷ s.args)) p.suite none_is)

  pub af_rule_permits :
      af_rule s ≡ none → s.prog ≢ [] → program s ≡ bytes "af" → IsBrainCommand s.args
  unfolding af_rule
  af_rule_permits h started is_af =
      let named : (program s == bytes "af") ≡ true = ==_holds is_af in
      let started' = is_empty_ne s.prog started in
      elim (Bool-cases (is_empty (af_words s.args) && contains s.args (bytes "--version"))) [
        | inl e ↦ inl (nil_of_empty (af_words s.args) (ground (arith, e)), ground (arith, e))
        | inr e ↦
            let one : exists_where (begins_with (af_words s.args)) af_allowed ≡ true =
              ground (arith, h, started', named, e) in
            let (form, found) = exists_where-found (begins_with (af_words s.args)) af_allowed one in
            let (more, split_at) = begins_with-append (af_words s.args) form found.0 in
            inr
              (form, more, found.1 (same_words form) ((same_words_iff form form).1 refl), split_at)
      ]

  pub program_rule_permits :
      program_rule p s ≡ none
      → s.prog ≢ []
      → p.allow_programs ≢ []
      → (is_af_or_git s.prog ≡ true)
        ⊎ ((contains builtins s.prog ≡ true) ⊎ (contains p.allow_programs s.prog ≡ true))
  unfolding program_rule
  program_rule_permits h started listed =
      ground (arith, h, is_empty_ne s.prog started, is_empty_ne p.allow_programs listed)

  protected_free :
      (t : Target)
      → protected m p.protected_paths dir bases t.path t.removes true ≡ false
      → IsUnprotected m p dir bases t
  unfolding protected protected_from
  protected_free t h =
      Each-map
        (λ from away.
          Each-map
            (λ r free. exists_where-Each (λ prot. covers r prot t.removes) p.protected_paths free) _
            (exists_where-Each (covered p.protected_paths t.removes) _ away))
        bases
        (exists_where-Each (protected_from m p.protected_paths dir t.path t.removes true) bases h)

  pub path_rule_permits :
      path_rule m p dir bases s ≡ none
      → p.protected_paths ≢ []
      → Each (IsUnprotected m p dir bases) (write_targets s)
  unfolding path_rule
  path_rule_permits h guarded =
      let none_is : exists_where
            (λ t. protected m p.protected_paths dir bases t.path t.removes true) (write_targets s)
          ≡ false =
        ground (arith, h, is_empty_ne p.protected_paths guarded) in
      Each-map protected_free (write_targets s) (exists_where-Each _ (write_targets s) none_is)

  pub judge-IsPermitted : judge m p dir bases s ≡ none → IsPermitted m p dir bases s
  unfolding judge
  judge-IsPermitted h =
      let (input, h₁) = (or_else-none (input_rule s) _).0 h in
      let (git, h₂) = (or_else-none (git_rule s) _).0 h₁ in
      let (suite, h₃) = (or_else-none (suite_rule p s) _).0 h₂ in
      let (af, h₄) = (or_else-none (af_rule s) _).0 h₃ in
      let (listed, path) = (or_else-none (program_rule p s) _).0 h₄ in
      record {
        commands_seen = ground (arith, input);
        git_reads_only = git_rule_permits git;
        not_the_suite = suite_rule_permits suite;
        af_of_a_brain = af_rule_permits af;
        program_listed = program_rule_permits listed;
        writes_unprotected = path_rule_permits path;
      }

-- Every command of an allowed command line is permitted, in the directories and with the
-- environment that the commands before it leave: its own commands can be seen, git only reads and
-- nothing configures it, it is not the suite, af does only what a brain may ask of it, its program
-- is a listed one, and it writes to no protected path.
pub allowed-IsPermitted :
    (r : Reading) (m : Machine) (p : Policy) (dir : Word) (bases : Words) (command : Word)
    → decide_command r m p dir bases command ≡ allow
    → (segments : List Segment) × (flatten r.parse (max_depth + 1) command ≡ some segments)
      × ((before : List Segment) (s : Segment) (after : List Segment)
          → segments ≡ before ++ s ∷ after
          → IsPermitted m p dir (bases_after bases before) (with_exports s (exported_by before)))
allowed-IsPermitted r m p dir bases command h =
    let (segments, short, read, kept, passes) =
      (decide_command_allows r m p dir bases command).0 h in
    (
      segments,
      read,
      λ before s after e.
          judge-IsPermitted m p dir (bases_after bases before) (with_exports s (exported_by before))
            (passes before s after e),
    )
