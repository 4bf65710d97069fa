-- ===== src/Workflow/Safety/Steps.antt =====
-- The pieces of the workflows that work in the session are safe.
use tflive.Common.{Bool, true, false, ◌≡◌, arith, Option}
use tflive.Common.Results.{ok}
use tflive.Domain.{
  Text, TemplateRunStep, TemplateRunEvent, PlanSummary, TerraformCommandType, OperationType,
  same_operation,
}
use tflive.Workflow.Calls.{WorkflowInput, RunLog, Failure, Trace, Environment, upload}
use tflive.Workflow.Control.{log, event, execute_step, record_progress}
use tflive.Workflow.Session.{
  Workspace, fetch_source_step, transfer_plan_step, save_plan, restore_saved_plan,
  record_failed_log, run_command, terraform,
}
use tflive.Workflow.Safety.{Safe, in_open_session, may_run, claimed, restored}

pub Safe-refl : (input : WorkflowInput) (t : Trace) → Safe input t t
Safe-refl input t = ground arith

pub Safe-trans :
    (input : WorkflowInput) {t u v : Trace} → Safe input t u → Safe input u v → Safe input t v
Safe-trans input p q = ground arith

module _ (env : Environment) (input : WorkflowInput) where
  log-Safe : (l : RunLog) (t : Trace) → Safe input t (log env input l t).1
  unfolding log
  log-Safe l t = ground arith

  pub event-Safe :
      (e : TemplateRunEvent) (s : Option PlanSummary) (t : Trace) → Safe input t (event env e s t).1
  unfolding event
  event-Safe e s t = ground arith

  pub fetch_source_step-Safe :
      (ws : Workspace) (t : Trace)
      → in_open_session t ≡ true
      → Safe input t (fetch_source_step env ws t).1
  unfolding fetch_source_step execute_step record_progress
  fetch_source_step-Safe ws t o = ground arith

  run_command-Safe :
      (command : TerraformCommandType) (ws : Workspace) (sealed : Text) (t : Trace)
      → in_open_session t ≡ true
      → may_run input command t ≡ true
      → Safe input t (run_command env input command ws sealed t).1
  unfolding run_command execute_step record_progress
  run_command-Safe command ws sealed t o m = ground arith

module _ (env : Environment) (input : WorkflowInput) where
  record_failed_log-Safe :
      (e : Failure) (t : Trace) → Safe input t (record_failed_log env input e t).1
  unfolding record_failed_log log
  record_failed_log-Safe e t = ground arith

  pub terraform-Safe :
      (command : TerraformCommandType) (ws : Workspace) (t : Trace)
      → in_open_session t ≡ true
      → may_run input command t ≡ true
      → Safe input t (terraform env input command ws t).1
  unfolding terraform run_command execute_step record_progress record_failed_log log
  terraform-Safe command ws t o m = ground arith

  transfer_plan_step-Safe :
      (create_key : Bool) (ws : Workspace) (t : Trace)
      → in_open_session t ≡ true
      → same_operation input.operation OperationType.plan ≡ false
      → Safe input t (transfer_plan_step env TemplateRunStep.saving_plan upload create_key ws t).1
  unfolding transfer_plan_step execute_step record_progress
  transfer_plan_step-Safe create_key ws t o p = ground arith

  pub save_plan-Safe :
      (ws : Workspace) (t : Trace)
      → in_open_session t ≡ true
      → same_operation input.operation OperationType.plan ≡ false
      → Safe input t (save_plan env ws t).1
  unfolding save_plan
  save_plan-Safe ws t o p = transfer_plan_step-Safe true ws t o p

  pub restore_saved_plan-Safe :
      (ws : Workspace) (t : Trace)
      → in_open_session t ≡ true
      → claimed t ≡ true
      → Safe input t (restore_saved_plan env ws t).1
        × ((a : Unit {0})
            → (restore_saved_plan env ws t).0 ≡ ok a
            → restored (restore_saved_plan env ws t).1 ≡ true)
  unfolding restore_saved_plan transfer_plan_step execute_step record_progress
  restore_saved_plan-Safe ws t o c = (ground arith, λ a e. ground arith)
