-- ===== src/Jobs/Invariant.antt =====
-- The invariants of the state file, over every call of the layer.
pub mod Sound
pub mod Deleting
pub mod Transactions
pub mod Reachable
pub mod View
pub mod Moves
pub mod Own
pub mod Ended
pub mod Outer
pub mod Elsewhere
pub mod Counts
pub mod Fitting
pub mod Numbers
pub mod Numbered
