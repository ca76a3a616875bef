-- ===== src/Lib.antt =====
-- agent-fox: a verification library of the service that runs jobs on issues, of the policy that its
-- brains are held to, of the rounds of a fix, and of the paths that a triage cites.
--
-- The parts of the program, and the files that model them:
--
-- * internal/service/jobs, the jobs layer, is Jobs. Jobs/Model.antt and Jobs/Rows.antt have the
--   states, the documents and the rows of the state file (model.go, and the schema of
--   internal/service/store/migrations.go). Jobs/Txn.antt has the transactions of store.go: a
--   transaction is a function of the file and of the events it has stored, with an error as a
--   value; run commits it and publishes its events, or rolls it back. Jobs/Store.antt has the
--   operations of store.go and transient.go, Jobs/Ruling.antt and Jobs/Finish.antt the end of an
--   attempt (finish.go), Jobs/Cancel.antt and Jobs/Cleaning.antt cancel.go and cleanup.go,
--   Jobs/Retention.antt retain.go, Jobs/Dispatch.antt the plan of the queue, and Jobs/Broker.antt
--   broker.go, and Jobs/Document.antt document.go. Jobs/Layer.antt has the calls that the layer
--   makes of its store, in any order, each with its own clock and faults. The statements of SQL are
--   functions on the lists of Table.antt.
-- * internal/service/ttl is Ttl, and internal/checks/compare.go is Gate.
-- * internal/policy, which decides on the tool calls of a brain, is Policy. Policy/Text.antt and
--   Policy/Paths.antt have the functions of Go's strings, path and filepath packages that it calls,
--   on words that are lists of bytes, and within, realPath and resolve. Policy/Parse.antt is
--   parse.go, with Policy/Quotes.antt, and Policy/Braces.antt, Policy/Sequence.antt and
--   Policy/Integers.antt are expand.go. Of policy.go, Policy/SplitString.antt and
--   Policy/Prefix.antt have what stands in front of a program, Policy/Segments.antt the commands
--   and the scripts in them, Policy/Flatten.antt every command of a line, Policy/Git.antt,
--   Policy/Branches.antt and Policy/Commands.antt the rules on programs, Policy/FindTargets.antt
--   and Policy/Targets.antt the paths that a command writes, Policy/Glob.antt and
--   Policy/Protected.antt the protected paths, and Policy/Judge.antt the decision. The reader that
--   parse calls (guard.Commands) and handsGuard are parameters, and so are the links, the home and
--   the temporary directory of the machine.
-- * internal/fix/loop.go, and AddUsage of internal/fix/state.go, are Fix: RunLoop over what happens
--   in each round.
-- * The resolving of a cited path in internal/triage/validate.go (newValidator, resolve,
--   underRoot and regular), is Triage.
--
-- Jobs/Hoare.antt and Jobs/Statements.antt have the rules for what holds after a transaction. The
-- modules of Jobs/Invariant are about the state file after any calls: Sound to Reachable about the
-- keys of the tables, View to Fitting about the open attempts of each job, and Numbers and Numbered
-- about their numbers. Jobs/Publishing is about the events, Jobs/Rounds about the rounds of
-- attempts, Jobs/Turns about the plan, Jobs/Sweeping about the sweep, Jobs/Purging about the purge
-- and Jobs/Refusing about claims.
--
-- The other modules of Policy are about it: Skipping, Nesting and Rounds about its loops, Lines
-- about the decision on a line, Permitted and Passing about the rules, Covering about protected
-- paths, Names, Inside and Writes about where a write lands, Quoting and Shown about splitString
-- and shorten, and Counted, Endless and Expanded about the expansion of braces. Fix/Bounds.antt and
-- Fix/Ends.antt are about RunLoop. Triage/Cited.antt is about the paths that are resolved,
-- Triage/Rooted.antt about absolute ones, and Triage/Ancestors.antt about the directories above a
-- file.
--
-- A time is a natural number, of milliseconds in Jobs and of nanoseconds in Ttl and Fix. A loop
-- over a list or a number needs no fuel. Of the others, skipPrefix has as many rounds as its words
-- have bytes and one for each word, since env -S makes no more of them; runs has one more than the
-- arguments of find have bytes and words; the readers of a word have as many as it has bytes, and
-- the brace expansion and the matching of a pattern one more; realPath has two more rounds than the
-- path has bytes, since each directory above is shorter, and a run out of rounds is a result of its
-- own; the loop over the directories above a file has two more than its path has bytes; count has
-- one more than there are ints, and endless is its result where they do not do: the loop is then at
-- an int for the second time. RunLoop has no rounds of its own: it is seen for any number of them,
-- and is what it has come to, its result or the state it goes on with. JSON is kept as its text,
-- and a function of the outside (the files of an attempt, the removal of a directory, the stored
-- gate results) is an argument. The locks of a job are not modelled: a transaction is one step.
-- Store.Plan is no transaction: its three reads are of three files. Other reads outside a
-- transaction are of one.
--
-- A letter of a word is one of ASCII: strings.ToLower and TrimSpace leave other bytes alone, and a
-- pattern matches byte by byte. The wording of a denial's reason is left out, and a float is the
-- tests that the code makes of it.
--
-- Not modelled: the handlers of the queue and the workers, the tries of a cleanup, the routes of
-- the API, the loading of a policy file, the fields of a diagnosis and the rest of triage, the
-- measuring, landing and parking of a fix, the brains, the repository map, HTTP, and the command
-- line.
pub mod Prelude
pub mod Table
pub mod Jobs
pub mod Ttl
pub mod Gate
pub mod Policy
pub mod Fix
pub mod Triage
