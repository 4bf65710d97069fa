-- ===== src/Service.antt =====
-- The commands of internal/app/service.go on runs and on the desired state of stack templates, over
-- the run store, the work queue and the authorization.
pub mod State
pub mod Configs
pub mod Commands
pub mod Lookups
pub mod Runs
pub mod Desired
pub mod Steps
pub mod Effects
pub mod Consents
pub mod Truth
pub mod Histories
pub mod Approvals
pub mod Starts
pub mod Refusals
pub mod Carrying
pub mod Frozen
pub mod Moves
pub mod Vows
