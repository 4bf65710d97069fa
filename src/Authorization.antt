-- ===== src/Authorization.antt =====
-- internal/authorization: who may do what on which object, asked of and stored at an OpenFGA server.
-- Vocabulary has the identifiers, relations and grants; Server what the code calls of OpenFGA;
-- Checks the questions; Grants the stored assignments. The other children are proofs.
pub mod Vocabulary
pub mod Relations
pub mod Server
pub mod Checks
pub mod Grants
pub mod Rendering
pub mod Batches
pub mod Paging
pub mod Listing
pub mod Sorting
pub mod Answers
