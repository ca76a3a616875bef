-- ===== src/Policy/Judge.antt =====
-- The decision of internal/policy/policy.go on a tool call: judge, decideShell, decideWrite, Decide
-- and DecideAt, baseDirs and shorten. What reads a line (parse) and handsGuard are parameters.
use agent_fox.Policy.Flatten.{flatten, max_depth}
use agent_fox.Policy.Protected.{protected, path_rule}
use agent_fox.Policy.Commands.{Policy, input_rule, suite_rule, af_rule, program_rule}
use agent_fox.Policy.Git.{
  Denial, Decision, allow, deny, unparseable, git_rule, protected_path, outside_dir, hands_guard,
}
use agent_fox.Policy.Text.{Word, trim, bytes, drop, blanks, Word_Eq, Words}
use agent_fox.Policy.Segments.{Segment, Command, changes_directory, exports}
use agent_fox.Policy.Paths.{Machine, resolve_path, clean, within}
use agent_fox.Prelude.{
  Option, ℕ, ◌∷◌, some, ◌++◌, Bool, suc, List, if◌then◌else◌, or_else, none, leb, false, [], ltb,
  is_empty, ◌==◌, ◌&&◌, length, not, ◌||◌, zero, take, ◌+◌,
}

-- judge
unfoldable pub judge : Machine → Policy → Word → Words → Segment → Option Denial
judge m p dir bases s = or_else (input_rule s) (
    or_else (git_rule s) (
      or_else (suite_rule p s)
        (or_else (af_rule s) (or_else (program_rule p s) (path_rule m p dir bases s)))))

unfoldable pub last_base : Words → Word
last_base [] = []
last_base (b ∷ []) = b
last_base (b ∷ c ∷ bases) = last_base (c ∷ bases)

-- The directories after a command.
abbrev pub after_cd : Words → Option Word → Words
after_cd bases none = bases
after_cd bases (some cd) = bases ++ resolve_path (last_base bases) cd ∷ []

abbrev pub with_exports : Segment → Words → Segment
with_exports s exported = record s { assigns = s.assigns ++ exported }

-- The loop of decideShell over the segments.
unfoldable pub judge_all : Machine → Policy → Word → Words → Words → List Segment → Option Denial
judge_all m p dir bases exported [] = none
judge_all m p dir bases exported (s ∷ segments) =
    let later =
      judge_all m p dir (after_cd bases (changes_directory s)) (exported ++ exports s) segments in
    or_else (judge m p dir bases (with_exports s exported)) later

-- shorten
abbrev continues : ℕ → Bool
continues c = leb 128 c && ltb c 192

abbrev pub byte_at : Word → Bool
byte_at [] = false
byte_at (c ∷ s) = continues c

unfoldable pub rune_cut : ℕ → Word → ℕ
rune_cut zero command = 0
rune_cut (suc n) command =
    let shorter = rune_cut n command in if byte_at (drop (suc n) command) then shorter else suc n

abbrev pub ellipsis : Word
ellipsis = 226 ∷ 128 ∷ 166 ∷ []

abbrev pub shown_bytes : ℕ
shown_bytes = 200

unfoldable pub shorten : Word → Word
shorten command =
    let c = trim command blanks in
    if is_empty c
    then bytes "(empty command)"
    else if leb (length c) shown_bytes
    then c
    else take (rune_cut shown_bytes c) c ++ ellipsis

abbrev pub max_command_bytes : ℕ
max_command_bytes = 65_536

abbrev pub decided : Option Denial → Decision
decided none = allow
decided (some d) = deny d

abbrev unread_line : Word → Decision
unread_line text = deny (record { rule = unparseable; segment = text })

-- The programs besides the policy's own: what reads a line, and the guard of the hands.
pub record Reading : Type 0 where
  pub parse : Word → Option (List Command)
  pub refuses : Word → Bool

unfoldable pub decide_command : Reading → Machine → Policy → Word → Words → Word → Decision
decide_command r m p dir bases command =
    if ltb max_command_bytes (length command)
    then unread_line (shorten command)
    else elim (flatten r.parse (max_depth + 1) command) [
      | none ↦ unread_line (shorten command)
      | some segments ↦
          if r.refuses command
          then deny (record { rule = hands_guard; segment = shorten command })
          else decided (judge_all m p dir bases [] segments)
    ]

-- decideShell
unfoldable pub decide_shell : Reading → Machine → Policy → Word → Words → Option Word → Decision
decide_shell r m p dir bases none = unread_line (bytes "(no command)")
decide_shell r m p dir bases (some command) = decide_command r m p dir bases command

-- decideWrite, of the path in the input
unfoldable pub decide_file : Machine → Policy → Word → Words → Word → Decision
decide_file m p dir bases file =
    if is_empty (trim file blanks)
    then unread_line (bytes "(no path)")
    else if protected m p.protected_paths dir bases file false false
    then deny (record { rule = protected_path; segment = file })
    else let where_to = resolve_path (last_base bases) file in
      if not (within m dir where_to) && not (within m m.temp_dir where_to)
      then deny (record { rule = outside_dir; segment = file })
      else allow

unfoldable pub decide_write : Machine → Policy → Word → Words → Option Word → Decision
decide_write m p dir bases none = unread_line (bytes "(no path)")
decide_write m p dir bases (some file) = decide_file m p dir bases file

-- baseDirs
unfoldable pub base_dirs : Machine → Word → Word → Words
base_dirs m dir cwd =
    if is_empty cwd
    then dir ∷ []
    else let there = resolve_path dir cwd in
      if not (there == clean dir) && within m dir there then dir ∷ there ∷ [] else dir ∷ []

-- DecideAt, of the input as the strings of its fields
abbrev pub dir_or_dot : Word → Word
dir_or_dot [] = bytes "."
dir_or_dot dir = dir

abbrev pub writes_file : Word → Bool
writes_file tool = tool == bytes "write_file" || tool == bytes "edit_file"

unfoldable pub decide_at :
    Reading → Machine → Policy → Word → Word → Word → (Word → Option Word) → Decision
decide_at r m p given cwd tool input =
    let dir = dir_or_dot given in
    let bases = base_dirs m dir cwd in
    if tool == bytes "execute"
    then decide_shell r m p dir bases (input (bytes "command"))
    else if writes_file tool
    then decide_write m p dir bases (input (bytes "path"))
    else allow

-- Decide
abbrev pub decide : Reading → Machine → Policy → Word → Word → (Word → Option Word) → Decision
decide r m p dir tool input = decide_at r m p dir dir tool input
