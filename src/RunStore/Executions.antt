-- ===== src/RunStore/Executions.antt =====
-- internal/postgres/run_executions.go: starting and ending a run's workflow executions, and the
-- counts recorded on them.
use tflive.Common.{
  ℕ, ◌==◌, Bool, true, false, ◌&&◌, ◌||◌, not, List, [], none, some, if◌then◌else◌, update_where,
}
use tflive.Common.Results.{ok, err, ◌>>◌, guard}
use tflive.Domain.{
  Text, no_text, TemplateRunStatus, RunPhase, same_phase, phase_valid, same_status, ExecutionStatus,
  is_running, PlanSummary,
}
use tflive.RunStore.Rows.{
  M, unknown_phase, workflow_id_required, unique_violation, no_running_execution, no_plan_execution,
  StepRow, Execution, Run, execution_running, execution_of, with_execution, running_phase,
}

-- `coalesce(a.approved_by, r.trigger_actor)`, the approval joined only for an apply.
abbrev pub execution_actor : RunPhase → Run → Text
execution_actor RunPhase.apply r = elim r.approval [
  | some a ↦ a.approved_by
  | none ↦ r.trigger_actor
]
execution_actor phase r = r.trigger_actor

abbrev pub new_execution : ℕ → ℕ → RunPhase → Text → ExecutionStatus → Text → Run → Execution
new_execution now id phase workflow_id status error_summary r = record {
  id = id;
  workflow_id = workflow_id;
  actor = execution_actor phase r;
  status = status;
  started_at = now;
  finished_at = if is_running status then none else some now;
  error_summary = error_summary;
  summary = none;
  steps = [];
}

-- The insert: `on conflict (tenant_id, run_id, phase) do nothing`, and an error where the run would
-- have two running executions. It reports whether it inserted.
unfoldable pub insert_workflow_execution :
    ℕ → ℕ → RunPhase → Text → ExecutionStatus → Text → Run → M (Run × Bool)
unfolding running_phase
insert_workflow_execution now id phase workflow_id status error_summary r = do
  guard (phase_valid phase) unknown_phase
  guard (not (workflow_id == no_text)) workflow_id_required
  elim (execution_of phase r) [
    | some _ ↦ ok (r, false)
    | none ↦
        if is_running status
          && (execution_running r.plan_execution || execution_running r.apply_execution)
        then err unique_violation
        else ok (
          with_execution phase (new_execution now id phase workflow_id status error_summary r) r,
          true,
        )
  ]

-- `update ... set status, finished_at where status = 'running'`, of the steps of one execution.
abbrev pub end_steps : ℕ → ExecutionStatus → List StepRow → List StepRow
end_steps now status =
    update_where (λ s. is_running s.status)
      (λ s. record s { status = status; finished_at = some now })

abbrev pub end_execution : ℕ → ExecutionStatus → Text → Execution → Execution
end_execution now status error_summary e = record e {
  status = status;
  finished_at = some now;
  error_summary = error_summary;
  steps = end_steps now status e.steps;
}

-- It reports whether the run had a running execution of the phase.
unfoldable pub finish_running_execution : ℕ → RunPhase → ExecutionStatus → Text → Run → Run × Bool
finish_running_execution now phase status error_summary r = elim (execution_of phase r) [
  | none ↦ (r, false)
  | some e ↦
      if is_running e.status
      then (with_execution phase (end_execution now status error_summary e) r, true)
      else (r, false)
]

-- How an execution ends with its run.
abbrev pub ended_status : TemplateRunStatus → ExecutionStatus
ended_status run_status =
    if same_status run_status TemplateRunStatus.failed
    then ExecutionStatus.failed
    else ExecutionStatus.succeeded

-- `endWorkflowExecution`: it reports whether the write is this workflow's to make.
unfoldable pub end_workflow_execution :
    ℕ → ℕ → RunPhase → TemplateRunStatus → Text → Text → Run → M (Run × Bool)
end_workflow_execution now id phase run_status workflow_id error_summary r =
    elim (running_phase r) [
      | some running ↦
          if same_phase running phase
          then ok (
            (finish_running_execution now phase (ended_status run_status) error_summary r).0,
            true,
          )
          else ok (r, false)
      | none ↦ do
        guard (same_status run_status TemplateRunStatus.failed) no_running_execution
        insert_workflow_execution now id phase workflow_id ExecutionStatus.failed error_summary r
    ]

-- The counts of the plan execution, whatever its status.
unfoldable pub record_plan_counts : PlanSummary → Run → M Run
record_plan_counts summary r = elim r.plan_execution [
  | none ↦ err no_plan_execution
  | some e ↦ ok (record r { plan_execution = some (record e { summary = some summary }) })
]

-- The counts of the running execution.
unfoldable pub record_running_counts : PlanSummary → Run → M Run
unfolding running_phase
record_running_counts summary r = elim (running_phase r) [
  | none ↦ err no_running_execution
  | some phase ↦ elim (execution_of phase r) [
    | none ↦ err no_running_execution
    | some e ↦ ok (with_execution phase (record e { summary = some summary }) r)
  ]
]
