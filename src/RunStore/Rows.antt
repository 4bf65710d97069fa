-- ===== src/RunStore/Rows.antt =====
-- The rows of the tables template_runs, template_run_approvals, template_run_workflow_executions,
-- template_run_step_executions and stack_templates, as internal/postgres/repositories.go and the
-- migrations have them. An execution is stored in its run's row: its unique key is (run, phase), so
-- a run has at most one of each phase. So is a step in its execution's, in the order of insertion,
-- and an approval in its run's. `now` is the transaction's clock, a number.
use tflive.Common.{ℕ, ◌==◌, Bool, true, false, ◌&&◌, List, Option, none, some, if◌then◌else◌}
use tflive.Common.Results.{Result}
use tflive.Domain.{
  Text, OperationType, TemplateRunStatus, TemplateRunStep, RunPhase, ExecutionStatus, is_running,
  PlanSummary, StackTemplateLifecycle, same_operation, terminal,
}

-- Why a transaction was rolled back.
pub data StoreError : Type 0 where
  not_found : StoreError
  not_recorded : StoreError  -- the workflow does not record this status
  transition : StoreError  -- ErrTemplateRunTransition
  unknown_phase workflow_id_required : StoreError
  unique_violation : StoreError
  no_running_execution no_plan_execution : StoreError
  unknown_step step_already_ran : StoreError
  unknown_event wrong_operation : StoreError
  not_approvable not_discardable run_in_flight : StoreError

pub record StepRow : Type 0 where
  pub step : TemplateRunStep
  pub status : ExecutionStatus
  pub started_at : ℕ
  pub finished_at : Option ℕ

pub record Execution : Type 0 where
  pub id : ℕ
  pub workflow_id : Text
  pub actor : Text
  pub status : ExecutionStatus
  pub started_at : ℕ
  pub finished_at : Option ℕ
  pub error_summary : Text
  pub summary : Option PlanSummary
  pub steps : List StepRow

pub record Approval : Type 0 where
  pub approved_by : Text
  pub approved_at : ℕ

pub record Discard : Type 0 where
  pub requested_by : Text
  pub reason : Text
  pub requested_at : ℕ

-- What a run stores and never reads back in these operations.
pub record RunSource : Type 0 where
  pub source_template_id : Text
  pub selected_ref : Text
  pub resolved_commit_sha : Text
  pub workspace_name : Text
  pub backend_type : Text
  pub backend_config_hash : Text

pub record Run : Type 0 where
  pub id : Text
  pub tenant_id : Text
  pub stack_template_id : Text
  pub template_revision_id : Text
  pub source : RunSource
  pub operation : OperationType
  pub config_json : Text
  pub status : TemplateRunStatus
  pub trigger_actor : Text
  pub created_at : Option ℕ
  pub completed_at : Option ℕ
  pub auto_approve : Bool
  pub run_number : ℕ
  pub plan_artifact_dek : Option Text
  pub cancellation : Option Discard
  pub approval : Option Approval
  pub plan_execution : Option Execution
  pub apply_execution : Option Execution

-- A component of a stack: its source, the desired, pending and applied snapshots, and the lifecycle.
pub record StackTemplate : Type 0 where
  pub id : Text
  pub tenant_id : Text
  pub stack_id : Text
  pub component_key : Text
  pub source_template_id : Text
  pub workspace_name : Text
  pub installed_config_json : Text
  pub created_by : Text
  pub desired_template_revision_id : Text
  pub desired_config_json : Text
  pub last_applied_run_id : Text
  pub last_applied_template_revision_id : Text
  pub last_applied_config_json : Option Text
  pub last_applied_at : Option ℕ
  pub pending_plan_run_id : Text
  pub pending_plan_template_revision_id : Text
  pub pending_plan_config_json : Option Text
  pub pending_plan_at : Option ℕ
  pub lifecycle : StackTemplateLifecycle

-- `next_execution_id` is the identity sequence of the executions.
pub record Database : Type 0 where
  pub runs : List Run
  pub stack_templates : List StackTemplate
  pub next_execution_id : ℕ

abbrev pub M : Type 0 → Type 0
M A = Result StoreError A

abbrev pub execution_running : Option Execution → Bool
execution_running none = false
execution_running (some e) = is_running e.status

-- `select ... where e.phase = $3`.
abbrev pub execution_of : RunPhase → Run → Option Execution
execution_of RunPhase.plan r = r.plan_execution
execution_of RunPhase.apply r = r.apply_execution
execution_of (RunPhase.other t) r = none

abbrev pub with_execution : RunPhase → Execution → Run → Run
with_execution RunPhase.plan e r = record r { plan_execution = some e }
with_execution RunPhase.apply e r = record r { apply_execution = some e }
with_execution (RunPhase.other t) e r = r

-- `select phase ... where status = 'running'`. The index one_running_idx lets at most one be.
unfoldable pub running_phase : Run → Option RunPhase
running_phase r =
    if execution_running r.plan_execution
    then some RunPhase.plan
    else if execution_running r.apply_execution
    then some RunPhase.apply
    else none

-- The run of a row lock `where tenant_id and id and stack_template_id and operation`.
abbrev pub is_run_of : Text → Text → Text → OperationType → Run → Bool
is_run_of tenant_id run_id stack_template_id operation r =
    r.tenant_id == tenant_id
    && r.id == run_id
    && r.stack_template_id == stack_template_id
    && same_operation r.operation operation

abbrev pub is_run : Text → Text → Run → Bool
is_run tenant_id run_id r = r.tenant_id == tenant_id && r.id == run_id

abbrev pub is_stack_template : Text → Text → StackTemplate → Bool
is_stack_template tenant_id stack_template_id s =
    s.tenant_id == tenant_id && s.id == stack_template_id

-- The predicate of template_runs_in_flight_idx.
abbrev pub in_flight : Text → Text → Run → Bool
in_flight tenant_id stack_template_id r =
    r.tenant_id == tenant_id
    && r.stack_template_id == stack_template_id
    && (if terminal r.status then false else true)
