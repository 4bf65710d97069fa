-- ===== src/RunStore/Lifecycle.antt =====
-- The lifecycle of a run: the statuses that it moves along, and what never changes of it.
pub mod Rows
use tflive.Common.{Bool, true, false, ◌≡◌, refl, ◌⊎◌}
use tflive.Domain.{TemplateRunStatus}
use tflive.RunStore.Rows.{Run}

-- The moves of the lifecycle, staying apart.
abbrev pub advances : TemplateRunStatus → TemplateRunStatus → Bool
advances TemplateRunStatus.queued TemplateRunStatus.running = true
advances TemplateRunStatus.queued TemplateRunStatus.failed = true
advances TemplateRunStatus.running TemplateRunStatus.waiting_approval = true
advances TemplateRunStatus.running TemplateRunStatus.completed = true
advances TemplateRunStatus.running TemplateRunStatus.failed = true
advances TemplateRunStatus.waiting_approval TemplateRunStatus.approved = true
advances TemplateRunStatus.waiting_approval TemplateRunStatus.canceled = true
advances TemplateRunStatus.waiting_approval TemplateRunStatus.failed = true
advances TemplateRunStatus.approved TemplateRunStatus.running = true
advances TemplateRunStatus.approved TemplateRunStatus.canceled = true
advances TemplateRunStatus.approved TemplateRunStatus.failed = true
advances _ _ = false

-- `next` is `previous` after some write: its identity and its snapshot are as they were, and its
-- status stayed or advanced.
pub record Follows (previous next : Run) : Type 0 where
  pub same_id : next.id ≡ previous.id
  pub same_tenant : next.tenant_id ≡ previous.tenant_id
  pub same_stack_template : next.stack_template_id ≡ previous.stack_template_id
  pub same_revision : next.template_revision_id ≡ previous.template_revision_id
  pub same_config : next.config_json ≡ previous.config_json
  pub same_operation_type : next.operation ≡ previous.operation
  pub same_auto_approve : next.auto_approve ≡ previous.auto_approve
  pub same_run_number : next.run_number ≡ previous.run_number
  pub same_trigger_actor : next.trigger_actor ≡ previous.trigger_actor
  pub moved : (next.status ≡ previous.status) ⊎ (advances previous.status next.status ≡ true)
