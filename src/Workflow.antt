-- ===== src/Workflow.antt =====
-- internal/workflows/template_run.go and step.go: the two workflows that carry a template run.
pub mod Calls
pub mod Control
pub mod Session
pub mod Lifecycle
pub mod Safety
pub mod Outcome
