-- ===== src/Policy.antt =====
-- internal/policy: which tool calls of a brain are allowed. A module for each part of policy.go,
-- parse.go and expand.go, and beside it the module of what is proved of it.
pub mod Text
pub mod Paths
pub mod SplitString
pub mod Prefix
pub mod Skipping
pub mod Segments
pub mod Flatten
pub mod Git
pub mod Branches
pub mod Commands
pub mod Glob
pub mod FindTargets
pub mod Targets
pub mod Protected
pub mod Integers
pub mod Sequence
pub mod Counted
pub mod Endless
pub mod Braces
pub mod Expanded
pub mod Quotes
pub mod Parse
pub mod Rounds
pub mod Judge
pub mod Lines
pub mod Permitted
pub mod Passing
pub mod Covering
pub mod Names
pub mod Inside
pub mod Writes
pub mod Nesting
pub mod Quoting
pub mod Shown
mod Tests
mod WordTests
mod PathTests
