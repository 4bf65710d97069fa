-- ===== src/Workflow/Lifecycle.antt =====
-- internal/workflows/template_run.go: `planWorkflow` and `applyWorkflow`, whose lifecycles alone move a
-- run along its status.
use tflive.Common.{ℕ, ◌||◌, Bool, true, false, not, Option, none, some, if◌then◌else◌}
use tflive.Domain.{
  OperationType, same_operation, TemplateRunStatus, TemplateRunEvent, RunPhase, PlanOutcome,
  TerraformCommandType,
}
use tflive.Workflow.Calls.{
  WorkflowInput, Failure, refused, unknown_outcome, Refusal, plans_no_auto_approved,
  applies_no_plan, destroys_no_auto_approved, unsupported_operation, TerraformOutput, finish_plan,
  begin_apply, Environment, W, pure, fail, ◌>>=◌, ◌>>◌, call,
}
use tflive.Workflow.Control.{set_status, fail_on_error, event}
use tflive.Workflow.Session.{Workspace, save_plan, terraform, ready, in_session}

-- One minute and ten, in nanoseconds.
abbrev pub plan_session_creation_timeout : ℕ
plan_session_creation_timeout = 60000000000

abbrev pub apply_session_creation_timeout : ℕ
apply_session_creation_timeout = 600000000000

abbrev pub guard_no : Bool → Refusal → Option Failure
guard_no auto_approve refusal = if auto_approve then some (refused refusal) else none

-- `planWorkflow.carries`: why the plan workflow does not carry the run, if it does not.
unfoldable pub plan_refusal : WorkflowInput → OperationType → Option Failure
plan_refusal input (OperationType.other t) = some (refused unsupported_operation)
plan_refusal input _ = guard_no input.auto_approve plans_no_auto_approved

-- `applyWorkflow.carries`.
unfoldable pub apply_refusal : WorkflowInput → OperationType → Option Failure
apply_refusal input OperationType.plan = some (refused applies_no_plan)
apply_refusal input OperationType.apply = none
apply_refusal input OperationType.destroy = guard_no input.auto_approve destroys_no_auto_approved
apply_refusal input (OperationType.other t) = some (refused unsupported_operation)

abbrev pub carries : Option Failure → W (Unit {0})
carries none = pure tt
carries (some e) = fail e

abbrev pub is_destroy : WorkflowInput → Bool
is_destroy input = same_operation input.operation OperationType.destroy

abbrev pub plan_command : WorkflowInput → TerraformCommandType
plan_command input =
    if is_destroy input then TerraformCommandType.plan_destroy else TerraformCommandType.plan

abbrev pub apply_command : WorkflowInput → TerraformCommandType
apply_command input =
    if input.auto_approve
    then TerraformCommandType.apply_auto_approve
    else if is_destroy input
    then TerraformCommandType.destroy
    else TerraformCommandType.apply

module _ (env : Environment) (input : WorkflowInput) where
  -- `planWorkflow.plan`: an apply or destroy run keeps a plan that has changes.
  unfoldable pub plan : Workspace → W TerraformOutput
  plan ws = do
    readied ← ready env input false ws
    output ← terraform env input (plan_command input) readied
    if not output.has_changes || same_operation input.operation OperationType.plan
        then pure output
        else (save_plan env readied >> pure output)

  -- `applyWorkflow.apply`, with the events around the command.
  unfoldable pub apply : Workspace → W (Unit {0})
  apply ws = do
    readied ← ready env input (not input.auto_approve) ws
    if is_destroy input then event env TemplateRunEvent.destroying none else pure tt
    output ← terraform env input (apply_command input) readied
    if is_destroy input
        then event env TemplateRunEvent.destroyed (some output.summary)
        else event env TemplateRunEvent.applied (some output.summary)

  -- What follows a finished plan.
  unfoldable pub settle_plan : PlanOutcome → W (Unit {0})
  settle_plan PlanOutcome.no_changes = do
    if is_destroy input then event env TemplateRunEvent.destroyed none else pure tt
    set_status env RunPhase.plan TemplateRunStatus.completed none
  settle_plan PlanOutcome.planned = set_status env RunPhase.plan TemplateRunStatus.completed none
  settle_plan PlanOutcome.waiting = pure tt
  settle_plan (PlanOutcome.other t) = fail (unknown_outcome (PlanOutcome.other t))

  -- The body of `planWorkflow.lifecycle`.
  unfoldable pub carry_plan : W (Unit {0})
  carry_plan = do
    carries (plan_refusal input input.operation)
    set_status env RunPhase.plan TemplateRunStatus.running none
    planned ← in_session env plan_session_creation_timeout RunPhase.plan plan
    outcome ← call env (finish_plan planned.has_changes planned.summary)
    settle_plan outcome

  -- The body of `applyWorkflow.lifecycle`, once it claimed its run. A lost claim ends quietly.
  unfoldable pub carry_claimed : Bool → W (Unit {0})
  carry_claimed false = pure tt
  carry_claimed true = do
    in_session env apply_session_creation_timeout RunPhase.apply apply
    set_status env RunPhase.apply TemplateRunStatus.completed none

  unfoldable pub carry_apply : W (Unit {0})
  carry_apply = do
    carries (apply_refusal input input.operation)
    claimed ← call env (begin_apply input.auto_approve)
    carry_claimed claimed

  unfoldable pub template_plan_workflow : W (Unit {0})
  template_plan_workflow = fail_on_error env RunPhase.plan carry_plan

  unfoldable pub template_apply_workflow : W (Unit {0})
  template_apply_workflow = fail_on_error env RunPhase.apply carry_apply
