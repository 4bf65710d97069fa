-- ===== src/RunStore/Status.antt =====
-- internal/postgres/repositories.go: RecordTemplateRunStatus, by which a workflow moves a run along
-- its lifecycle, and what a run that becomes terminal does to its stack template.
use tflive.Common.{
  ℕ, ◌+◌, ◌==◌, Bool, true, false, ◌&&◌, not, List, [], ◌∷◌, Option, none, some, if◌then◌else◌,
  find?, replace, update_where,
}
use tflive.Common.Results.{ok, ◌>>=◌, ◌>>◌, guard, or_fail}
use tflive.Domain.{
  Text, no_text, OperationType, same_operation, TemplateRunStatus, RunPhase, phase_valid,
  same_status, contains_status, terminal, ExecutionStatus, StackTemplateLifecycle, is_destroying,
}
use tflive.RunStore.Rows.{
  M, not_found, not_recorded, transition, unknown_phase, Run, StackTemplate, Database, is_run_of,
  is_stack_template,
}
use tflive.RunStore.Executions.{insert_workflow_execution, end_workflow_execution}

pub record StatusInput : Type 0 where
  pub run_id : Text
  pub tenant_id : Text
  pub stack_template_id : Text
  pub operation : OperationType
  pub status : TemplateRunStatus
  pub error_summary : Text
  pub phase : RunPhase
  pub workflow_id : Text

-- The statuses that a workflow records, with those that a run may be in when it does.
unfoldable pub workflow_status_sources : TemplateRunStatus → Option (List TemplateRunStatus)
workflow_status_sources TemplateRunStatus.running = some (TemplateRunStatus.queued ∷ [])
workflow_status_sources TemplateRunStatus.completed = some (TemplateRunStatus.running ∷ [])
workflow_status_sources TemplateRunStatus.failed = some (
    TemplateRunStatus.queued ∷ TemplateRunStatus.running ∷ TemplateRunStatus.waiting_approval
    ∷ TemplateRunStatus.approved ∷ [])
workflow_status_sources _ = none

-- `coalesce(completed_at, now())`.
abbrev pub coalesce_now : Option ℕ → ℕ → Option ℕ
coalesce_now (some t) now = some t
coalesce_now none now = some now

-- The plan key is dropped: the half of `releaseRunPlan` that writes the run.
abbrev pub drop_plan_key : Run → Run
drop_plan_key r = record r { plan_artifact_dek = none }

-- The row of a run that becomes terminal.
abbrev pub settle_run : ℕ → TemplateRunStatus → Run → Run
settle_run now status r =
    drop_plan_key (record r { status = status; completed_at = coalesce_now r.completed_at now })

-- The plan stops being its stack template's pending plan: the other half of `releaseRunPlan`.
abbrev pub clear_pending : StackTemplate → StackTemplate
clear_pending s = record s {
  pending_plan_run_id = no_text;
  pending_plan_template_revision_id = no_text;
  pending_plan_config_json = none;
  pending_plan_at = none;
}

unfoldable pub release_pending : Text → Text → List StackTemplate → List StackTemplate
release_pending tenant_id run_id =
    update_where (λ s. s.tenant_id == tenant_id && s.pending_plan_run_id == run_id) clear_pending

-- `recordStackTemplateLifecycle`: an error when there is no such stack template.
unfoldable pub record_lifecycle :
    Text → Text → StackTemplateLifecycle → List StackTemplate → M (List StackTemplate)
record_lifecycle tenant_id stack_template_id lifecycle ss = do
  s ← or_fail (find? (is_stack_template tenant_id stack_template_id) ss) not_found
  ok (
      replace (is_stack_template tenant_id stack_template_id) (record s { lifecycle = lifecycle })
        ss)

-- `recordInterruptedDestroyLifecycle`: a destroy that failed after it began leaves its template failed.
unfoldable pub record_interrupted_destroy :
    Text → Text → List StackTemplate → M (List StackTemplate)
unfolding record_lifecycle
record_interrupted_destroy tenant_id stack_template_id ss = do
  s ← or_fail (find? (is_stack_template tenant_id stack_template_id) ss) not_found
  if is_destroying s.lifecycle
      then record_lifecycle tenant_id stack_template_id StackTemplateLifecycle.failed ss
      else ok ss

-- A write of a status that is not terminal: running, which starts the plan's execution.
unfoldable pub start_run : ℕ → ℕ → StatusInput → Run → M (Run × Bool)
unfolding insert_workflow_execution
start_run now id input r = do
  (started, _) ←
      insert_workflow_execution now id input.phase input.workflow_id ExecutionStatus.running no_text
        (record r { status = input.status })
  ok (started, false)

-- A terminal write, which ends the execution of its phase; a write that is not its workflow's to make
-- changes nothing.
unfoldable pub end_run : ℕ → ℕ → StatusInput → Run → M (Run × Bool)
end_run now id input r = do
  (ended, carried) ←
      end_workflow_execution now id input.phase input.status input.workflow_id input.error_summary r
  if carried then ok (settle_run now input.status ended, true) else ok (r, false)

-- What the write does to the locked run. It reports whether the run became terminal.
unfoldable pub move_run : ℕ → ℕ → StatusInput → List TemplateRunStatus → Run → M (Run × Bool)
move_run now id input sources r = if same_status r.status input.status then ok (r, false) else do
  guard (contains_status sources r.status) transition
  guard (phase_valid input.phase) unknown_phase
  if terminal input.status then end_run now id input r else start_run now id input r

abbrev pub is_failed_destroy : StatusInput → Bool
is_failed_destroy input =
    same_status input.status TemplateRunStatus.failed
    && same_operation input.operation OperationType.destroy

-- The stack templates after the write.
unfoldable pub settle_stack_templates :
    StatusInput → Bool → List StackTemplate → M (List StackTemplate)
unfolding record_interrupted_destroy release_pending
settle_stack_templates input ended ss = if not ended then ok ss else do
  interrupted ←
      if is_failed_destroy input
      then record_interrupted_destroy input.tenant_id input.stack_template_id ss
      else ok ss
  ok (release_pending input.tenant_id input.run_id interrupted)

abbrev pub is_input_run : StatusInput → Run → Bool
is_input_run input = is_run_of input.tenant_id input.run_id input.stack_template_id input.operation

unfoldable pub record_template_run_status : ℕ → StatusInput → Database → M Database
unfolding move_run settle_stack_templates workflow_status_sources
record_template_run_status now input db = do
  sources ← or_fail (workflow_status_sources input.status) not_recorded
  r ← or_fail (find? (is_input_run input) db.runs) not_found
  (moved, ended) ← move_run now db.next_execution_id input sources r
  settled ← settle_stack_templates input ended db.stack_templates
  ok (record db {
    runs = replace (is_input_run input) moved db.runs;
    stack_templates = settled;
    next_execution_id = db.next_execution_id + 1;
  })
