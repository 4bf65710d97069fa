-- ===== src/Workflow/Control.antt =====
-- internal/workflows/template_run.go: the methods of `run`, which schedule control-plane work, and
-- step.go: ExecuteStep.
use tflive.Common.{ℕ, ◌==◌, ltb, Option, none, some, if◌then◌else◌}
use tflive.Domain.{
  no_text, TemplateRunStatus, TemplateRunStep, TemplateRunEvent, RunPhase, PlanSummary,
  TerraformCommandType,
}
use tflive.Workflow.Calls.{
  WorkflowInput, RunLog, Failure, activity, also, Call, record_status, record_step, record_event,
  record_log, Answer, Environment, W, pure, fail, ◌>>◌, call, catch,
}

-- domain.DefaultTerraformTimeout, 45 minutes.
abbrev pub default_terraform_timeout : ℕ
default_terraform_timeout = 2700000000000

-- `terraformTimeout`.
unfoldable pub terraform_timeout : WorkflowInput → ℕ
terraform_timeout input =
    if ltb 0 input.terraform_timeout then input.terraform_timeout else default_terraform_timeout

-- `terraformCommandSteps`.
abbrev pub command_step : TerraformCommandType → TemplateRunStep
command_step TerraformCommandType.init = TemplateRunStep.initializing
command_step TerraformCommandType.select_workspace = TemplateRunStep.selecting_workspace
command_step TerraformCommandType.plan = TemplateRunStep.planning
command_step TerraformCommandType.plan_destroy = TemplateRunStep.planning
command_step TerraformCommandType.apply = TemplateRunStep.applying
command_step TerraformCommandType.destroy = TemplateRunStep.applying
command_step TerraformCommandType.apply_auto_approve = TemplateRunStep.applying

-- `failedCommandLog`.
abbrev pub failed_command_log : Failure → Option RunLog
failed_command_log (activity t l) = l
failed_command_log (also e f) = failed_command_log e
failed_command_log _ = none

module _ (env : Environment) where
  unfoldable pub set_status : RunPhase → TemplateRunStatus → Option Failure → W (Unit {0})
  set_status phase status summary = call env (record_status status summary phase)

  -- The run is marked failed, and the error returned, with that of the mark if it failed too.
  unfoldable pub mark_failed : RunPhase → Failure → W (Unit {0})
  mark_failed phase e =
      catch (set_status phase TemplateRunStatus.failed (some e)) (λ f. fail (also e f)) >> fail e

  -- `failOnError`, as it is deferred on a lifecycle's result.
  unfoldable pub fail_on_error : RunPhase → W (Unit {0}) → W (Unit {0})
  fail_on_error phase m = catch m (mark_failed phase)

  -- `Record`.
  unfoldable pub record_progress : TemplateRunStep → W (Unit {0})
  record_progress step = call env (record_step step)

  -- `ExecuteStep`: the record completes before the activity is scheduled, and fails the step if it fails.
  unfoldable pub execute_step : TemplateRunStep → (c : Call) → W (Answer c)
  execute_step step c = record_progress step >> call env c

  unfoldable pub event : TemplateRunEvent → Option PlanSummary → W (Unit {0})
  event e summary = call env (record_event e summary)

  -- A log is recorded under the workflow's own identity, whatever the executor returned.
  unfoldable pub log : WorkflowInput → RunLog → W (Unit {0})
  log input l =
      if l.object_key == no_text
      then pure tt
      else call env (record_log (record l { tenant_id = input.tenant_id; run_id = input.run_id }))
