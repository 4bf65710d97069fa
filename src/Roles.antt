-- ===== src/Roles.antt =====
-- The roles on a stack of internal/app/service.go: assigning one, revoking all of a user's. Commands
-- has the code; Tuples and Owners are proofs.
pub mod Commands
pub mod Tuples
pub mod Owners
pub mod Rules
