-- ===== src/Jobs.antt =====
-- internal/service/jobs: the jobs layer of the agent-fox service.
pub mod Model
pub mod Rows
pub mod Txn
pub mod Hoare
pub mod Statements
pub mod Invariant
pub mod Store
pub mod Ruling
pub mod Finish
pub mod Cancel
pub mod Cleaning
pub mod Retention
pub mod Dispatch
pub mod Layer
pub mod Rounds
pub mod Turns
pub mod Publishing
pub mod Broker
pub mod Document
pub mod Purging
pub mod Refusing
pub mod Sweeping
mod Tests
