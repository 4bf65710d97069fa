-- ===== src/Tests/Samples.antt =====
-- A stack template with one apply run, the operations that carry it, and an environment in which every call succeeds.
use tflive.Common.{ℕ, true, false, List, [], ◌∷◌, none, some}
use tflive.Common.Results.{ok}
use tflive.Domain.{
  OperationType, TemplateRunStatus, TemplateRunStep, TemplateRunEvent, RunPhase, PlanOutcome,
  PlanSummary, StackTemplateLifecycle,
}
use tflive.RunStore.Rows.{Run, StackTemplate, Database}
use tflive.RunStore.Operations.{
  Operation, records_status, records_step, records_event, finishes_plan, begins_apply, approves,
  creates_plan_key,
}
use tflive.Workflow.Calls.{
  WorkflowInput, RunLog, Environment, record_status, record_step, record_event, record_log,
  finish_plan, begin_apply, seal_source_token, seal_plan_key, seal_credentials, create_session,
  complete_session, prepare_workspace, fetch_source, run_terraform, transfer_plan, release_run_key,
  cleanup_workspace,
}

abbrev pub sample_run : Run
sample_run = record {
  id = 11;
  tenant_id = 2;
  stack_template_id = 3;
  template_revision_id = 4;
  source = record {
    source_template_id = 5;
    selected_ref = 6;
    resolved_commit_sha = 7;
    workspace_name = 8;
    backend_type = 9;
    backend_config_hash = 10;
  };
  operation = OperationType.apply;
  config_json = 1;
  status = TemplateRunStatus.queued;
  trigger_actor = 20;
  created_at = some 100;
  completed_at = none;
  auto_approve = false;
  run_number = 1;
  plan_artifact_dek = none;
  cancellation = none;
  approval = none;
  plan_execution = none;
  apply_execution = none;
}

abbrev pub sample_template : StackTemplate
sample_template = record {
  id = 3;
  tenant_id = 2;
  stack_id = 15;
  component_key = 16;
  source_template_id = 5;
  workspace_name = 8;
  installed_config_json = 1;
  created_by = 20;
  desired_template_revision_id = 4;
  desired_config_json = 1;
  last_applied_run_id = 0;
  last_applied_template_revision_id = 0;
  last_applied_config_json = none;
  last_applied_at = none;
  pending_plan_run_id = 0;
  pending_plan_template_revision_id = 0;
  pending_plan_config_json = none;
  pending_plan_at = none;
  lifecycle = StackTemplateLifecycle.active;
}

abbrev pub empty_database : Database
empty_database = record { runs = []; stack_templates = sample_template ∷ []; next_execution_id = 1 }

abbrev pub sample_summary : PlanSummary
sample_summary = record { add = 1; change = 2; destroy = 0 }

abbrev pub status_operation : TemplateRunStatus → RunPhase → Operation
status_operation status phase = records_status (record {
  run_id = 11;
  tenant_id = 2;
  stack_template_id = 3;
  operation = OperationType.apply;
  status = status;
  error_summary = 0;
  phase = phase;
  workflow_id = 30;
})

-- The run is planned, approved, applied and completed.
abbrev pub applied_history : List (ℕ × Operation)
applied_history =
    (101, status_operation TemplateRunStatus.running RunPhase.plan)
    ∷ (102, records_step 2 11 TemplateRunStep.planning)
    ∷ (103, creates_plan_key 2 11 77)
    ∷ (
      104,
      finishes_plan (record {
        tenant_id = 2;
        run_id = 11;
        stack_template_id = 3;
        operation = OperationType.apply;
        has_changes = true;
        summary = sample_summary;
      }),
    )
    ∷ (105, approves 2 11 (record { approved_by = 21; approved_at = 105 }))
    ∷ (106, begins_apply 2 11 false 31)
    ∷ (
      107,
      records_event (record {
        run_id = 11;
        tenant_id = 2;
        stack_template_id = 3;
        operation = OperationType.apply;
        event = TemplateRunEvent.applied;
        summary = some sample_summary;
      }),
    )
    ∷ (108, status_operation TemplateRunStatus.completed RunPhase.apply)
    ∷ []

abbrev pub sample_input : WorkflowInput
sample_input = record {
  run_id = 11;
  tenant_id = 2;
  stack_template_id = 3;
  operation = OperationType.apply;
  selected_ref = 6;
  resolved_commit_sha = 7;
  workspace_name = 8;
  repo_owner = 12;
  repo_name = 13;
  root_path = 14;
  config_json = 1;
  auto_approve = false;
  terraform_timeout = 0;
}

abbrev sample_log : RunLog
sample_log = record { tenant_id = 99; run_id = 98; phase = 40; object_key = 41 }

-- Every call succeeds, a plan has changes, and a claim is granted.
abbrev pub sample_environment : Environment
sample_environment (finish_plan has_changes summary) t = ok PlanOutcome.waiting
sample_environment (begin_apply auto_approve) t = ok true
sample_environment (seal_source_token key) t = ok (record { sealed_token = 50; fetch_hint = 51 })
sample_environment (seal_plan_key key create) t = ok 52
sample_environment (seal_credentials key) t = ok 53
sample_environment prepare_workspace t = ok (record { path = 54; public_key = 55 })
sample_environment (fetch_source path token) t = ok 56
sample_environment (run_terraform command phase path terraform_path sealed timeout) t =
    ok (record { log = sample_log; has_changes = true; summary = sample_summary })
sample_environment (record_status status summary phase) t = ok tt
sample_environment (record_step step) t = ok tt
sample_environment (record_event event summary) t = ok tt
sample_environment (record_log log) t = ok tt
sample_environment (create_session timeout) t = ok tt
sample_environment complete_session t = ok tt
sample_environment (transfer_plan transfer path key) t = ok tt
sample_environment release_run_key t = ok tt
sample_environment (cleanup_workspace path delete_plan) t = ok tt
