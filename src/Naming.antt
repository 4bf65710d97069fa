-- ===== src/Naming.antt =====
-- The names that internal/app/service.go makes of what a user typed: slugs and workspace names. Texts
-- has the code, Shapes the proofs.
pub mod Texts
pub mod Shapes
