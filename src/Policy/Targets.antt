-- ===== src/Policy/Targets.antt =====
-- The paths that a command writes, by internal/policy/policy.go: writeTargets, outputFiles,
-- findTargets, splitArgs and inPlace.
use agent_fox.Policy.FindTargets.{Target, written, removed, find_targets, first_arg}
use agent_fox.Table.{exists_where}
use agent_fox.Policy.Segments.{Redirect, Segment, program}
use agent_fox.Prelude.{
  Option, [], Bool, List, false, true, ◌∷◌, some, if◌then◌else◌, ◌++◌, ◌==◌, ◌&&◌, ◌||◌, map,
  is_empty, none, not,
}
use agent_fox.Policy.Text.{
  Words, Word, bytes, contains, has_prefix, cut, Word_Eq, cut_prefix, trim_left, has_byte,
  trim_prefix, drop, is_digits,
}

-- outputFlags
abbrev pub output_flags : Words
output_flags =
    bytes "o"
    ∷ bytes "output"
    ∷ bytes "out"
    ∷ bytes "outfile"
    ∷ bytes "output-file"
    ∷ bytes "log-file"
    ∷ bytes "coverprofile"
    ∷ bytes "cpuprofile"
    ∷ bytes "memprofile"
    ∷ bytes "blockprofile"
    ∷ bytes "mutexprofile"
    ∷ bytes "trace"
    ∷ []

-- The file that an argument names, with the arguments after it.
abbrev output_value : Option Word → Words → Words
output_value none args = first_arg args
output_value (some value) args = value ∷ []

abbrev output_of : Word × Option Word → Words → Words
output_of flag args = if contains output_flags flag.0 then output_value flag.1 args else []

-- outputFiles
unfoldable pub output_files : Words → Words
output_files [] = []
output_files (a ∷ args) =
    let more = output_files args in
    if a == bytes "--"
    then []
    else if has_prefix a (bytes "-")
    then output_of (cut (trim_left a (bytes "-")) b'=') args ++ more
    else more

-- splitArgs
pub record Split : Type 0 where
  pub flags : Words
  pub operands : Words
  pub target_dir : Word

pub data ArgWord : Type 0 where
  arg_ends arg_dir arg_valued arg_flag arg_operand : ArgWord
  arg_dir_is : Word → ArgWord

abbrev dir_option : Word
dir_option = bytes "--target-directory="

unfoldable pub arg_word : Words → Word → ArgWord
arg_word valued a =
    if a == bytes "--"
    then arg_ends
    else if a == bytes "-t" && not (contains valued a) || a == bytes "--target-directory"
    then arg_dir
    else if has_prefix a dir_option
    then arg_dir_is (trim_prefix a dir_option)
    else if contains valued a
    then arg_valued
    else if has_prefix a (bytes "-") && not (a == bytes "-")
    then arg_flag
    else arg_operand

abbrev add_flag : Split → Word → Split
add_flag k a = record k { flags = k.flags ++ a ∷ [] }

abbrev add_operand : Split → Word → Split
add_operand k a = record k { operands = k.operands ++ a ∷ [] }

-- The directory is the next word, when there is one.
abbrev dir_next : Split → Words → Split
dir_next k [] = k
dir_next k (a ∷ args) = record k { target_dir = a }

unfoldable pub split_args : Words → Split → Bool → Words → Split
split_args valued k value [] = k
split_args valued k true (a ∷ args) = split_args valued k false args
split_args valued k false (a ∷ args) = elim (arg_word valued a) [
  | arg_ends ↦ record k { operands = k.operands ++ args }
  | arg_dir ↦ split_args valued (dir_next k args) true args
  | arg_dir_is dir ↦ split_args valued (record k { target_dir = dir }) false args
  | arg_valued ↦ split_args valued (add_flag k a) true args
  | arg_flag ↦ split_args valued (add_flag k a) false args
  | arg_operand ↦ split_args valued (add_operand k a) false args
]

abbrev pub no_split : Split
no_split = record { flags = []; operands = []; target_dir = [] }

-- inPlace
abbrev edits_in_place : Word → Bool
edits_in_place f =
    if f == bytes "--in-place" || has_prefix f (bytes "--in-place=")
    then true
    else if has_prefix f (bytes "--")
    then false
    else has_byte (drop 1 f) b'i'

abbrev pub in_place : Words → Bool
in_place flags = exists_where edits_in_place flags

-- writeTargets: the redirections.
abbrev redirect_target : Redirect → List Target
redirect_target r =
    if contains (bytes ">" ∷ bytes ">>" ∷ bytes ">|" ∷ bytes "&>" ∷ bytes "&>>" ∷ bytes "<>" ∷ [])
      r.op
    then written r.target ∷ []
    else if r.op == bytes ">&" && not (is_digits r.target) && not (r.target == bytes "-")
    then written r.target ∷ []
    else []

unfoldable pub redirect_targets : List Redirect → List Target
redirect_targets [] = []
redirect_targets (r ∷ rs) = redirect_target r ++ redirect_targets rs

-- writerValued
unfoldable pub writer_valued : Word → Words
writer_valued prog =
    if prog == bytes "touch"
    then bytes "-r"
      ∷ bytes "-d"
      ∷ bytes "-t"
      ∷ bytes "--reference"
      ∷ bytes "--date"
      ∷ bytes "--time"
      ∷ []
    else if prog == bytes "truncate"
    then bytes "-s" ∷ bytes "-r" ∷ bytes "--size" ∷ bytes "--reference" ∷ []
    else []

abbrev dir_targets : Word → List Target
dir_targets [] = []
dir_targets dir = written dir ∷ []

unfoldable pub last_of : Words → Words
last_of [] = []
last_of (a ∷ []) = a ∷ []
last_of (a ∷ b ∷ args) = last_of (b ∷ args)

abbrev last_target : Split → List Target
last_target k =
    if is_empty k.target_dir then map written (last_of k.operands) else dir_targets k.target_dir

-- dd of=FILE
unfoldable pub dd_targets : Words → List Target
dd_targets [] = []
dd_targets (a ∷ args) =
    let more = dd_targets args in
    elim (cut_prefix a (bytes "of=")) [ none ↦ more | some file ↦ written file ∷ more ]

abbrev removers : Words
removers = bytes "rm" ∷ bytes "rmdir" ∷ bytes "unlink" ∷ bytes "shred" ∷ []

abbrev operand_writers : Words
operand_writers =
    bytes "touch"
    ∷ bytes "mkdir"
    ∷ bytes "mkfifo"
    ∷ bytes "tee"
    ∷ bytes "truncate"
    ∷ bytes "chmod"
    ∷ bytes "chown"
    ∷ bytes "chgrp"
    ∷ bytes "patch"
    ∷ []

-- The switch on the program.
unfoldable pub program_targets : Word → Words → Split → List Target
program_targets prog args k =
    if contains removers prog
    then map removed k.operands
    else if prog == bytes "mv"
    then map removed k.operands ++ dir_targets k.target_dir
    else if contains operand_writers prog
    then map written k.operands
    else if contains (bytes "cp" ∷ bytes "install" ∷ bytes "rsync" ∷ []) prog
    then last_target k
    else if prog == bytes "ln"
    then map written k.operands ++ dir_targets k.target_dir
    else if prog == bytes "sed" || prog == bytes "perl"
    then if in_place k.flags then map written k.operands else []
    else if prog == bytes "dd"
    then dd_targets args
    else if prog == bytes "find"
    then find_targets args
    else []

unfoldable pub write_targets : Segment → List Target
write_targets s =
    let prog = program s in
    redirect_targets s.redirects
    ++ (if is_empty s.prog
        then []
        else map written (output_files s.args)
          ++ program_targets prog s.args (split_args (writer_valued prog) no_split false s.args))
