-- ===== src/RunStore/Progress.antt =====
-- internal/postgres/run_progress.go: the step that a running run has started, and the events of a
-- run on its stack template.
use tflive.Common.{
  ℕ, ◌==◌, Bool, ◌&&◌, List, [], ◌∷◌, ◌++◌, Option, none, some, if◌then◌else◌, find?, replace,
}
use tflive.Common.Results.{ok, err, ◌>>=◌, ◌>>◌, guard, or_fail}
use tflive.Domain.{
  Text, OperationType, same_operation, TemplateRunStatus, same_status, TemplateRunStep, step_valid,
  same_step, TemplateRunEvent, RunPhase, ExecutionStatus, is_running, PlanSummary,
  StackTemplateLifecycle,
}
use tflive.RunStore.Rows.{
  M, not_found, unknown_step, step_already_ran, unknown_event, wrong_operation, StepRow, Execution,
  Run, StackTemplate, Database, execution_of, with_execution, running_phase, is_run, is_run_of,
  is_stack_template,
}
use tflive.RunStore.Executions.{end_steps, record_running_counts}
use tflive.RunStore.Status.{record_lifecycle}

-- The step's row of the running execution, if it has one.
abbrev pub step_row : TemplateRunStep → List StepRow → Option StepRow
step_row step = find? (λ s. same_step s.step step)

abbrev pub new_step : ℕ → TemplateRunStep → StepRow
new_step now step = record {
  step = step;
  status = ExecutionStatus.running;
  started_at = now;
  finished_at = none;
}

-- The steps of an execution once `step` started: a retried write changes nothing, and a step that
-- already finished is an error.
unfoldable pub start_step : ℕ → TemplateRunStep → List StepRow → M (List StepRow)
start_step now step steps = elim (step_row step steps) [
  | some existing ↦ if is_running existing.status then ok steps else err step_already_ran
  | none ↦ ok (end_steps now ExecutionStatus.succeeded steps ++ new_step now step ∷ [])
]

unfoldable pub start_step_of : ℕ → TemplateRunStep → RunPhase → Execution → Run → M Run
unfolding start_step
start_step_of now step phase e r = do
  steps ← start_step now step e.steps
  ok (with_execution phase (record e { steps = steps }) r)

-- The step of a running run.
unfoldable pub run_step : ℕ → TemplateRunStep → Run → M Run
unfolding start_step_of running_phase
run_step now step r = do
  guard (same_status r.status TemplateRunStatus.running) not_found
  phase ← or_fail (running_phase r) not_found
  e ← or_fail (execution_of phase r) not_found
  start_step_of now step phase e r

unfoldable pub record_template_run_step : ℕ → Text → Text → TemplateRunStep → Database → M Database
unfolding run_step step_valid
record_template_run_step now tenant_id run_id step db = do
  guard (step_valid step) unknown_step
  r ← or_fail (find? (is_run tenant_id run_id) db.runs) not_found
  stepped ← run_step now step r
  ok (record db { runs = replace (is_run tenant_id run_id) stepped db.runs })

-- The one kind of run that each event belongs to.
unfoldable pub template_run_event_operations : TemplateRunEvent → Option OperationType
template_run_event_operations TemplateRunEvent.applied = some OperationType.apply
template_run_event_operations TemplateRunEvent.destroying = some OperationType.destroy
template_run_event_operations TemplateRunEvent.destroyed = some OperationType.destroy
template_run_event_operations (TemplateRunEvent.other t) = none

-- `set last_applied_run_id = template_runs.id, ...`: the run's snapshot becomes what is live.
abbrev pub make_live : ℕ → Run → StackTemplate → StackTemplate
make_live now r s = record s {
  last_applied_run_id = r.id;
  last_applied_template_revision_id = r.template_revision_id;
  last_applied_config_json = some r.config_json;
  last_applied_at = some now;
}

-- `recordStackTemplateLastApplied`: the run must be an apply in the given status.
unfoldable pub record_last_applied :
    ℕ → Text → Text → TemplateRunStatus → Run → List StackTemplate → M (List StackTemplate)
record_last_applied now tenant_id stack_template_id run_status r ss = do
  s ← or_fail (find? (is_stack_template tenant_id stack_template_id) ss) not_found
  guard
      (r.stack_template_id == s.id
        && same_operation r.operation OperationType.apply
        && same_status r.status run_status)
      not_found
  ok (replace (is_stack_template tenant_id stack_template_id) (make_live now r s) ss)

-- What an event does to the stack template.
unfoldable pub event_stack_templates :
    ℕ → Text → Text → TemplateRunEvent → Run → List StackTemplate → M (List StackTemplate)
unfolding record_last_applied record_lifecycle
event_stack_templates now tenant_id stack_template_id TemplateRunEvent.applied r ss =
    record_last_applied now tenant_id stack_template_id TemplateRunStatus.running r ss
event_stack_templates now tenant_id stack_template_id TemplateRunEvent.destroying r ss =
    record_lifecycle tenant_id stack_template_id StackTemplateLifecycle.destroying ss
event_stack_templates now tenant_id stack_template_id TemplateRunEvent.destroyed r ss =
    record_lifecycle tenant_id stack_template_id StackTemplateLifecycle.destroyed ss
event_stack_templates now tenant_id stack_template_id (TemplateRunEvent.other t) r ss = ok ss

pub record EventInput : Type 0 where
  pub run_id : Text
  pub tenant_id : Text
  pub stack_template_id : Text
  pub operation : OperationType
  pub event : TemplateRunEvent
  pub summary : Option PlanSummary

abbrev pub is_event_run : EventInput → Run → Bool
is_event_run input = is_run_of input.tenant_id input.run_id input.stack_template_id input.operation

unfoldable pub event_counts : Option PlanSummary → Run → M Run
unfolding record_running_counts
event_counts none r = ok r
event_counts (some summary) r = record_running_counts summary r

unfoldable pub record_template_run_event : ℕ → EventInput → Database → M Database
unfolding template_run_event_operations event_counts event_stack_templates
record_template_run_event now input db = do
  operation ← or_fail (template_run_event_operations input.event) unknown_event
  guard (same_operation input.operation operation) wrong_operation
  r ← or_fail (find? (is_event_run input) db.runs) not_found
  guard (same_status r.status TemplateRunStatus.running) not_found
  counted ← event_counts input.summary r
  stack_templates ←
      event_stack_templates now input.tenant_id input.stack_template_id input.event counted
        db.stack_templates
  ok (record db {
    runs = replace (is_event_run input) counted db.runs;
    stack_templates = stack_templates;
  })
