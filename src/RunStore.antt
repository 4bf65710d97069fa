-- ===== src/RunStore.antt =====
-- internal/postgres: the tables that hold template runs, and the operations on them. Each operation
-- is one transaction: it returns the new database, or an error with nothing written.
pub mod Rows
pub mod Executions
pub mod Status
pub mod Progress
pub mod Plans
pub mod Create
pub mod Soundness
pub mod Lifecycle
pub mod Operations
pub mod Changes
pub mod History
pub mod Snapshots
pub mod Races
