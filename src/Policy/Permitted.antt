-- ===== src/Policy/Permitted.antt =====
-- What a command that passes the rules of internal/policy/policy.go is: described without the order
-- in which judge asks them.
use agent_fox.Policy.Protected.{covers, relative_to, expand_word}
use agent_fox.Table.Every.{Each}
use agent_fox.Table.{exists_where}
use agent_fox.Policy.Segments.{Segment, program}
use agent_fox.Policy.Targets.{write_targets}
use agent_fox.Policy.FindTargets.{Target}
use agent_fox.Policy.Paths.{Machine, resolve_path}
use agent_fox.Policy.Commands.{
  af_words, Policy, same_words, af_allowed, suite_form, is_af_or_git, builtins,
}
use agent_fox.Prelude.{[], ◌≡◌, Bool, false, ◌∷◌, ◌++◌, true, ◌⊎◌, inl, inr, refl, arith, ap, ◌≢◌}
use agent_fox.Policy.Text.{Word, contains, bytes, Words}
use agent_fox.Policy.Git.{
  Subcommand, git_subcommand, git_word, git_option, git_refused, git_valued, git_sub, subcommand,
  git_reads, GitWord, refused_option, no_subcommand, sets_git,
}

-- The options of git in front of its subcommand, none of which sets configuration.
pub data GlobalOptions : Words → Type 0 where
  no_option : GlobalOptions []
  option :
      {a : Word} {more : Words}
      → git_word a ≡ git_option
      → GlobalOptions more
      → GlobalOptions (a ∷ more)
  with_value :
      {a v : Word} {more : Words}
      → git_word a ≡ git_valued
      → GlobalOptions more
      → GlobalOptions (a ∷ v ∷ more)
  dangling : {a : Word} → git_word a ≡ git_valued → GlobalOptions (a ∷ [])

-- A command line of git that only reads: no subcommand behind the options, or one that reads.
abbrev pub ReadsOnly : Words → Type 0
ReadsOnly [] = Unit
ReadsOnly (sub ∷ args) = (git_word sub ≡ git_sub) × (git_reads sub args ≡ true)

abbrev pub IsReadingGit : Words → Type 0
IsReadingGit args =
    (options : Words) × (command : Words) × (args ≡ options ++ command)
    × GlobalOptions options
    × ReadsOnly command

-- What gitSubcommand returns may pass.
abbrev pub sub_passes : Subcommand → Bool
sub_passes refused_option = false
sub_passes no_subcommand = true
sub_passes (subcommand sub args) = git_reads sub args

git_word-cases :
    (a : Word)
    → (git_word a ≡ git_refused)
      ⊎ ((git_word a ≡ git_valued) ⊎ ((git_word a ≡ git_option) ⊎ (git_word a ≡ git_sub)))
git_word-cases a = go (git_word a)
  where
    go : (k : GitWord) → (k ≡ git_refused) ⊎ ((k ≡ git_valued) ⊎ ((k ≡ git_option) ⊎ (k ≡ git_sub)))
    go git_refused = inl refl
    go git_valued = inr (inl refl)
    go git_option = inr (inr (inl refl))
    go git_sub = inr (inr (inr refl))

pub git_subcommand-reads :
    (args : Words) → sub_passes (git_subcommand false args) ≡ true → IsReadingGit args
unfolding git_subcommand
git_subcommand-reads [] h = ([], [], refl, no_option, tt)
git_subcommand-reads (a ∷ []) h = elim (git_word-cases a) [
  | inl e ↦ absurd (ground (arith, h, e))
  | inr (inl e) ↦ (a ∷ [], [], refl, dangling e, tt)
  | inr (inr (inl e)) ↦ (a ∷ [], [], refl, option e no_option, tt)
  | inr (inr (inr e)) ↦ ([], a ∷ [], refl, no_option, (e, ground (arith, h, e)))
]
git_subcommand-reads (a ∷ b ∷ args) h = elim (git_word-cases a) [
  | inl e ↦ absurd (ground (arith, h, e))
  | inr (inl e) ↦
      let passes : sub_passes (git_subcommand false args) ≡ true = ground (arith, h, e) in
      let (options, command, split_at, are_options, reads) = git_subcommand-reads args passes in
      (a ∷ b ∷ options, command, ap (λ l. a ∷ b ∷ l) split_at, with_value e are_options, reads)
  | inr (inr (inl e)) ↦
      let passes : sub_passes (git_subcommand false (b ∷ args)) ≡ true = ground (arith, h, e) in
      let (options, command, split_at, are_options, reads) =
        git_subcommand-reads (b ∷ args) passes in
      (a ∷ options, command, ap (λ l. a ∷ l) split_at, option e are_options, reads)
  | inr (inr (inr e)) ↦ ([], a ∷ b ∷ args, refl, no_option, (e, ground (arith, h, e)))
]

-- A command of af that a brain may run: it asks for the version, or is one of the three.
abbrev pub IsBrainCommand : Words → Type 0
IsBrainCommand args =
    ((af_words args ≡ []) × (contains args (bytes "--version") ≡ true))
    ⊎ ((form : Words) × (more : Words) × (exists_where (same_words form) af_allowed ≡ true)
        × (af_words args ≡ form ++ more))

-- No directory of the run makes the path one of the protected ones, or one below or, where it is
-- removed, above.
abbrev pub IsUnprotected : Machine → Policy → Word → Words → Target → Type 0
IsUnprotected m p dir bases t =
    Each
      (λ from.
        Each (λ r. Each (λ prot. covers r prot t.removes ≡ false) p.protected_paths)
          (relative_to m dir (resolve_path from (expand_word m t.path from))))
      bases

pub record IsPermitted (m : Machine) (p : Policy) (dir : Word) (bases : Words) (s : Segment)
    : Type 0 where
  pub commands_seen : s.from_input ≡ false
  pub git_reads_only :
      s.prog ≢ []
      → program s ≡ bytes "git"
      → Each (λ a. sets_git a ≡ false) s.assigns × IsReadingGit s.args
  pub not_the_suite :
      s.prog ≢ []
      → Each (λ form. suite_form form ≢ [] → suite_form (s.prog ∷ s.args) ≢ suite_form form) p.suite
  pub af_of_a_brain : s.prog ≢ [] → program s ≡ bytes "af" → IsBrainCommand s.args
  pub program_listed :
      s.prog ≢ []
      → p.allow_programs ≢ []
      → (is_af_or_git s.prog ≡ true)
        ⊎ ((contains builtins s.prog ≡ true) ⊎ (contains p.allow_programs s.prog ≡ true))
  pub writes_unprotected :
      p.protected_paths ≢ [] → Each (IsUnprotected m p dir bases) (write_targets s)
