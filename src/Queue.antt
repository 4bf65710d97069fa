-- ===== src/Queue.antt =====
-- internal/queue and internal/postgres/workqueue.go: the outbox of work intents, and its delivery.
pub mod Specs
pub mod Store
pub mod Exclusion
pub mod Leases
pub mod Controller
pub mod Timing
pub mod Intents
pub mod Rows
pub mod Delivery
