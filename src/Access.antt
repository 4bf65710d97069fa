-- ===== src/Access.antt =====
-- internal/app/authorization.go: what the principal of a request may do, on the platform and on a
-- stack, and which stacks it sees. Requests has the preconditions and single questions, Stacks the
-- table of stacks with its pages and the listing, Capabilities the questions asked together; the
-- other children are proofs.
pub mod Requests
pub mod Stacks
pub mod Capabilities
pub mod Pages
pub mod Visibility
pub mod Projection
pub mod Questions
