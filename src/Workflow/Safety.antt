-- ===== src/Workflow/Safety.antt =====
-- When each call of the two workflows is allowed, by the calls before it.
pub mod Steps
pub mod Chains
pub mod Phases
pub mod Sessions
pub mod Workflows
use tflive.Common.{
  ℕ, ◌==◌, Bool, true, false, not, ◌&&◌, ◌||◌, ◌≡◌, List, [], ◌∷◌, Option, none, some,
  if◌then◌else◌,
}
use tflive.Domain.{
  OperationType, same_operation, TemplateRunStatus, same_status, TemplateRunStep, same_step,
  TemplateRunEvent, RunPhase, same_phase, TerraformCommandType,
}
use tflive.Workflow.Calls.{
  WorkflowInput, Call, Trace, upload, download, record_status, record_step, record_event,
  record_log, begin_apply, create_session, complete_session, prepare_workspace, fetch_source,
  run_terraform, transfer_plan, release_run_key, cleanup_workspace,
}
use tflive.Workflow.Control.{command_step}

-- The executor session: created, and not yet completed.
abbrev pub in_open_session : Trace → Bool
in_open_session [] = false
in_open_session ((create_session timeout, created) ∷ t) = created || in_open_session t
in_open_session ((complete_session, _) ∷ t) = false
in_open_session (_ ∷ t) = in_open_session t

-- A claim of the run was granted.
abbrev pub claimed : Trace → Bool
claimed [] = false
claimed ((begin_apply auto_approve, granted) ∷ t) = granted || claimed t
claimed (_ ∷ t) = claimed t

-- The saved plan was put back.
abbrev pub restored : Trace → Bool
restored [] = false
restored ((transfer_plan download path key, put_back) ∷ t) = put_back || restored t
restored (_ ∷ t) = restored t

-- The stack template was marked destroying.
abbrev pub announced : Trace → Bool
announced [] = false
announced ((record_event TemplateRunEvent.destroying summary, recorded) ∷ t) =
    recorded || announced t
announced (_ ∷ t) = announced t

-- The newest call recorded the step.
abbrev pub stepped : TemplateRunStep → Trace → Bool
stepped step ((record_step s, true) ∷ t) = same_step s step
stepped step _ = false

-- What must have happened before a Terraform command.
abbrev pub may_run : WorkflowInput → TerraformCommandType → Trace → Bool
may_run input TerraformCommandType.init t = true
may_run input TerraformCommandType.select_workspace t = true
may_run input TerraformCommandType.plan t = not input.auto_approve
may_run input TerraformCommandType.plan_destroy t =
    not input.auto_approve && same_operation input.operation OperationType.destroy
may_run input TerraformCommandType.apply t =
    claimed t && restored t && same_operation input.operation OperationType.apply
may_run input TerraformCommandType.destroy t =
    claimed t && restored t && announced t && same_operation input.operation OperationType.destroy
may_run input TerraformCommandType.apply_auto_approve t =
    claimed t && input.auto_approve && same_operation input.operation OperationType.apply

abbrev pub permitted : WorkflowInput → Call → Trace → Bool
permitted input (record_log l) t = l.tenant_id == input.tenant_id && l.run_id == input.run_id
permitted input (record_status status summary phase) t =
    not (same_status status TemplateRunStatus.running) || same_phase phase RunPhase.plan
permitted input prepare_workspace t =
    in_open_session t && stepped TemplateRunStep.preparing_workspace t
permitted input (fetch_source path token) t =
    in_open_session t && stepped TemplateRunStep.fetching_source t
permitted input (run_terraform command phase path terraform_path sealed timeout) t =
    in_open_session t && stepped (command_step command) t && may_run input command t
permitted input (transfer_plan upload path key) t =
    in_open_session t
    && stepped TemplateRunStep.saving_plan t
    && not (same_operation input.operation OperationType.plan)
permitted input (transfer_plan download path key) t =
    in_open_session t && stepped TemplateRunStep.restoring_plan t && claimed t
permitted input release_run_key t = in_open_session t
permitted input (cleanup_workspace path delete_plan) t = in_open_session t
permitted input _ t = true

-- Every call was permitted when it was made.
abbrev pub lawful : WorkflowInput → Trace → Bool
lawful input [] = true
lawful input ((c, b) ∷ t) = permitted input c t && lawful input t

-- What a piece of a workflow that works in the session does to the trace.
pub record Safe (input : WorkflowInput) (t t' : Trace) : Type 0 where
  pub lawfully : lawful input t ≡ true → lawful input t' ≡ true
  pub same_session : in_open_session t' ≡ in_open_session t
  pub still_claimed : claimed t ≡ true → claimed t' ≡ true
  pub still_restored : restored t ≡ true → restored t' ≡ true
  pub still_announced : announced t ≡ true → announced t' ≡ true
