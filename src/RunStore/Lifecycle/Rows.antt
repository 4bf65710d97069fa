-- ===== src/RunStore/Lifecycle/Rows.antt =====
-- Each write of one run follows the lifecycle, over the writes of RunStore/Status, Progress, Plans and
-- Create.
use tflive.Common.{ℕ, Bool, true, ◌≡◌, arith, ◌⊎◌, inl, inr, List, Option, some}
use tflive.Common.Results.{ok}
use tflive.Domain.{
  Text, TemplateRunStatus, contains_status, RunPhase, ExecutionStatus, PlanSummary, PlanOutcome,
  TemplateRunStep,
}
use tflive.RunStore.Rows.{Run, Approval, Discard}
use tflive.RunStore.Executions.{
  ended_status, insert_workflow_execution, finish_running_execution, end_workflow_execution,
}
use tflive.RunStore.Status.{
  StatusInput, workflow_status_sources, settle_run, start_run, end_run, move_run,
}
use tflive.RunStore.Progress.{run_step, event_counts}
use tflive.RunStore.Plans.{
  claim_run, claimable, FinishPlanInput, finish_plan_run, discardable, discard_run, approvable,
  approve_run,
}
use tflive.RunStore.Soundness.{IsSound}
use tflive.RunStore.Soundness.Rows.{end_run_inv, move_run_inv}
use tflive.RunStore.Lifecycle.{Follows, advances}

pub Follows-refl : (r : Run) → Follows r r
Follows-refl r = ground arith

pub claim_run-Follows :
    (now id : ℕ) (workflow_id : Text) (auto : Bool) (r : Run) {r' : Run}
    → claimable auto r ≡ true
    → claim_run now id workflow_id r ≡ ok r'
    → Follows r r'
unfolding claim_run
claim_run-Follows now id workflow_id auto r c e = ground arith

start_run-Follows :
    (now id : ℕ) (input : StatusInput) (r : Run) {r' : Run} {ended : Bool}
    → advances r.status input.status ≡ true
    → start_run now id input r ≡ ok (r', ended)
    → Follows r r'
unfolding start_run
start_run-Follows now id input r a e = ground arith

insert_workflow_execution-Follows :
    (now id : ℕ) (phase : RunPhase) (workflow_id : Text) (status : ExecutionStatus)
    (error_summary : Text) (r : Run) {r' : Run} {inserted : Bool}
    → insert_workflow_execution now id phase workflow_id status error_summary r ≡ ok (r', inserted)
    → Follows r r'
unfolding insert_workflow_execution
insert_workflow_execution-Follows now id phase workflow_id status error_summary r e = ground arith

finish_running_execution-Follows :
    (now : ℕ) (phase : RunPhase) (status : ExecutionStatus) (error_summary : Text) (r : Run)
    → Follows r (finish_running_execution now phase status error_summary r).0
unfolding finish_running_execution
finish_running_execution-Follows now phase status error_summary r = ground arith

-- Ending an execution finishes it, inserts a failed one, or leaves the run.
end_workflow_execution_inv :
    (now id : ℕ) (phase : RunPhase) (status : TemplateRunStatus) (workflow_id error_summary : Text)
    (r : Run) {r' : Run} {carried : Bool}
    → end_workflow_execution now id phase status workflow_id error_summary r ≡ ok (r', carried)
    → (r' ≡ (finish_running_execution now phase (ended_status status) error_summary r).0)
      ⊎ (r' ≡ r)
      ⊎ (insert_workflow_execution now id phase workflow_id ExecutionStatus.failed error_summary r
          ≡ ok (r', carried))
unfolding end_workflow_execution
end_workflow_execution_inv now id phase status workflow_id error_summary r e = ground arith

-- So it leaves the rest of the run.
end_workflow_execution-Follows :
    (now id : ℕ) (phase : RunPhase) (status : TemplateRunStatus) (workflow_id error_summary : Text)
    (r : Run) {r' : Run} {carried : Bool}
    → end_workflow_execution now id phase status workflow_id error_summary r ≡ ok (r', carried)
    → Follows r r'
end_workflow_execution-Follows now id phase status workflow_id error_summary r e =
    elim (end_workflow_execution_inv now id phase status workflow_id error_summary r e) [
      | inl u ↦
          rw u (finish_running_execution-Follows now phase (ended_status status) error_summary r)
      | inr (inl u) ↦ rw u (Follows-refl r)
      | inr (inr q) ↦
          insert_workflow_execution-Follows now id phase workflow_id ExecutionStatus.failed
            error_summary r q
    ]

settle_run-Follows :
    (now : ℕ) (status : TemplateRunStatus) (r x : Run)
    → advances r.status status ≡ true
    → Follows r x
    → Follows r (settle_run now status x)
settle_run-Follows now status r x a f = ground arith

end_run-Follows :
    (now id : ℕ) (input : StatusInput) (r : Run) {r' : Run} {ended : Bool}
    → advances r.status input.status ≡ true
    → end_run now id input r ≡ ok (r', ended)
    → Follows r r'
end_run-Follows now id input r a e = elim (end_run_inv now id input r e) [
  | inl same ↦ rw same (Follows-refl r)
  | inr (x, q, u) ↦ rw u (
      settle_run-Follows now input.status r x a (
        end_workflow_execution-Follows now id input.phase input.status input.workflow_id
          input.error_summary r q))
]

-- What the table of sources allows, the lifecycle does.
sources-advances :
    (status current : TemplateRunStatus) {sources : List TemplateRunStatus}
    → workflow_status_sources status ≡ some sources
    → contains_status sources current ≡ true
    → advances current status ≡ true
unfolding workflow_status_sources
sources-advances status current w c = ground arith

pub move_run-Follows :
    (now id : ℕ) (input : StatusInput) (sources : List TemplateRunStatus) (r : Run) {r' : Run}
    {ended : Bool}
    → workflow_status_sources input.status ≡ some sources
    → move_run now id input sources r ≡ ok (r', ended)
    → Follows r r'
move_run-Follows now id input sources r w e = elim (move_run_inv now id input sources r e) [
  | inl (same, _) ↦ rw same (Follows-refl r)
  | inr (c, inl (t, q)) ↦
      end_run-Follows now id input r (sources-advances input.status r.status w c) q
  | inr (c, inr (t, q)) ↦
      start_run-Follows now id input r (sources-advances input.status r.status w c) q
]

pub run_step-Follows :
    (now : ℕ) (step : TemplateRunStep) (r : Run) {r' : Run}
    → run_step now step r ≡ ok r'
    → Follows r r'
unfolding run_step
run_step-Follows now step r e = ground arith

pub event_counts-Follows :
    (summary : Option PlanSummary) (r : Run) {r' : Run}
    → event_counts summary r ≡ ok r'
    → Follows r r'
unfolding event_counts
event_counts-Follows summary r e = ground arith

pub finish_plan_run-Follows :
    (now : ℕ) (input : FinishPlanInput) (r : Run) {r' : Run} {outcome : PlanOutcome}
    → IsSound r
    → finish_plan_run now input r ≡ ok (r', outcome)
    → Follows r r'
unfolding finish_plan_run
finish_plan_run-Follows now input r s e = ground (arith, s.running_executes)

pub discard_run-Follows :
    (now : ℕ) (discard : Discard) (r : Run)
    → discardable r ≡ true
    → Follows r (discard_run now discard r)
discard_run-Follows now discard r d = ground arith

pub approve_run-Follows :
    (approval : Approval) (r : Run) {r' : Run}
    → approvable r ≡ true
    → approve_run approval r ≡ ok r'
    → Follows r r'
unfolding approve_run
approve_run-Follows approval r a e = ground arith
