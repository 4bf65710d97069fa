-- ===== src/RunStore/Soundness/Rows.antt =====
-- Each write of one run keeps the row sound: the writes of RunStore/Status, Progress, Plans and Create.
use tflive.Common.{
  ℕ, Bool, true, false, ◌≡◌, ◌⊎◌, inl, inr, Bool-cases, arith, List, Option, none, some,
}
use tflive.Common.Results.{ok, >>=-eq-ok}
use tflive.Domain.{
  Text, TemplateRunStatus, contains_status, terminal, RunPhase, PlanSummary, PlanOutcome,
  TemplateRunStep,
}
use tflive.RunStore.Executions.{
  insert_workflow_execution, finish_running_execution, end_workflow_execution,
}
use tflive.RunStore.Rows.{Run, execution_running, running_phase, Approval, Discard}
use tflive.RunStore.Status.{
  StatusInput, workflow_status_sources, settle_run, start_run, end_run, move_run,
}
use tflive.RunStore.Progress.{run_step, event_counts}
use tflive.RunStore.Plans.{
  claim_run, claimable, FinishPlanInput, finish_plan_run, discardable, discard_run, approvable,
  approve_run,
}
use tflive.RunStore.Create.{inserted, takes_plan_key}
use tflive.RunStore.Soundness.{IsSound, IsApproved}

pub claim_run-IsSound :
    (now id : ℕ) (workflow_id : Text) (auto : Bool) (r : Run) {r' : Run}
    → IsSound r
    → claimable auto r ≡ true
    → claim_run now id workflow_id r ≡ ok r'
    → IsSound r'
unfolding claim_run
claim_run-IsSound now id workflow_id auto r s c e = ground arith

start_run-IsSound :
    (now id : ℕ) (input : StatusInput) (r : Run) {r' : Run} {ended : Bool}
    → input.status ≡ TemplateRunStatus.running
    → input.phase ≡ RunPhase.plan
    → r.status ≡ TemplateRunStatus.queued
    → IsSound r
    → start_run now id input r ≡ ok (r', ended)
    → IsSound r'
unfolding start_run
start_run-IsSound now id input r i p q s e = ground arith

-- The execution that carried the run is over.
abbrev pub Idle : Run → Type 0
Idle r =
    (execution_running r.plan_execution ≡ false)
    × (execution_running r.apply_execution ≡ false)
    × IsApproved r

end_workflow_execution-Idle :
    (now id : ℕ) (phase : RunPhase) (status : TemplateRunStatus) (workflow_id error_summary : Text)
    (r : Run) {r' : Run}
    → IsSound r
    → end_workflow_execution now id phase status workflow_id error_summary r ≡ ok (r', true)
    → Idle r'
unfolding end_workflow_execution insert_workflow_execution finish_running_execution running_phase
end_workflow_execution-Idle now id phase status workflow_id error_summary r s e =
    ground (arith, s.one_running, s.applied_approved)

-- A run that ends idle, with its key dropped, is sound.
settled-IsSound :
    (now : ℕ) (status : TemplateRunStatus) (r : Run)
    → terminal status ≡ true
    → Idle r
    → IsSound (settle_run now status r)
settled-IsSound now status r t i = ground arith

-- A terminal write changes nothing, or settles what is left once the execution ended.
pub end_run_inv :
    (now id : ℕ) (input : StatusInput) (r : Run) {r' : Run} {ended : Bool}
    → end_run now id input r ≡ ok (r', ended)
    → (r' ≡ r)
      ⊎ ((x : Run) × (end_workflow_execution now id input.phase input.status input.workflow_id
              input.error_summary r
            ≡ ok (x, true))
          × (r' ≡ settle_run now input.status x))
unfolding end_run
end_run_inv now id input r e =
    let (p, q, u) =
      >>=-eq-ok
        (end_workflow_execution now id input.phase input.status input.workflow_id
          input.error_summary r)
        _ e in
    elim (Bool-cases p.1) [
      | inl t ↦ inr (p.0, ground arith, ground arith)
      | inr f ↦ inl (ground arith)
    ]

end_run-IsSound :
    (now id : ℕ) (input : StatusInput) (r : Run) {r' : Run} {ended : Bool}
    → terminal input.status ≡ true
    → IsSound r
    → end_run now id input r ≡ ok (r', ended)
    → IsSound r'
end_run-IsSound now id input r t s e = elim (end_run_inv now id input r e) [
  | inl same ↦ rw same s
  | inr (x, q, u) ↦ rw u (
      settled-IsSound now input.status x t (
        end_workflow_execution-Idle now id input.phase input.status input.workflow_id
          input.error_summary r s q))
]

-- A status write leaves the run, ends it or starts it, after its guards.
pub move_run_inv :
    (now id : ℕ) (input : StatusInput) (sources : List TemplateRunStatus) (r : Run) {r' : Run}
    {ended : Bool}
    → move_run now id input sources r ≡ ok (r', ended)
    → ((r' ≡ r) × (ended ≡ false))
      ⊎ ((contains_status sources r.status ≡ true)
          × (((terminal input.status ≡ true) × (end_run now id input r ≡ ok (r', ended)))
              ⊎ ((terminal input.status ≡ false) × (start_run now id input r ≡ ok (r', ended)))))
unfolding move_run
move_run_inv now id input sources r e = ground arith

-- A status that the workflow records and that is not terminal is running, from queued.
sources_of_start :
    (status current : TemplateRunStatus) {sources : List TemplateRunStatus}
    → workflow_status_sources status ≡ some sources
    → terminal status ≡ false
    → contains_status sources current ≡ true
    → (status ≡ TemplateRunStatus.running) × (current ≡ TemplateRunStatus.queued)
unfolding workflow_status_sources
sources_of_start status current w t c = ground arith

pub move_run-IsSound :
    (now id : ℕ) (input : StatusInput) (sources : List TemplateRunStatus) (r : Run) {r' : Run}
    {ended : Bool}
    → workflow_status_sources input.status ≡ some sources
    → (input.status ≡ TemplateRunStatus.running → input.phase ≡ RunPhase.plan)
    → IsSound r
    → move_run now id input sources r ≡ ok (r', ended)
    → IsSound r'
move_run-IsSound now id input sources r w p s e = elim (move_run_inv now id input sources r e) [
  | inl (same, _) ↦ rw same s
  | inr (c, inl (t, q)) ↦ end_run-IsSound now id input r t s q
  | inr (c, inr (t, q)) ↦
      let (running, queued) = sources_of_start input.status r.status w t c in
      start_run-IsSound now id input r running (p running) queued s q
]

pub run_step-IsSound :
    (now : ℕ) (step : TemplateRunStep) (r : Run) {r' : Run}
    → IsSound r
    → run_step now step r ≡ ok r'
    → IsSound r'
unfolding run_step
run_step-IsSound now step r s e = ground arith

pub event_counts-IsSound :
    (summary : Option PlanSummary) (r : Run) {r' : Run}
    → IsSound r
    → event_counts summary r ≡ ok r'
    → IsSound r'
unfolding event_counts
event_counts-IsSound summary r s e = ground arith

pub finish_plan_run-IsSound :
    (now : ℕ) (input : FinishPlanInput) (r : Run) {r' : Run} {outcome : PlanOutcome}
    → IsSound r
    → finish_plan_run now input r ≡ ok (r', outcome)
    → IsSound r'
unfolding finish_plan_run
finish_plan_run-IsSound now input r s e = ground arith

pub discard_run-IsSound :
    (now : ℕ) (discard : Discard) (r : Run)
    → IsSound r
    → discardable r ≡ true
    → IsSound (discard_run now discard r)
discard_run-IsSound now discard r s d = ground arith

pub approve_run-IsSound :
    (approval : Approval) (r : Run) {r' : Run}
    → IsSound r
    → approvable r ≡ true
    → approve_run approval r ≡ ok r'
    → IsSound r'
unfolding approve_run
approve_run-IsSound approval r s a e = ground arith

pub inserted-IsSound :
    (r : Run) (run_number : ℕ)
    → r.status ≡ TemplateRunStatus.queued
    → r.completed_at ≡ none
    → IsSound (inserted r run_number)
inserted-IsSound r run_number q c = ground arith

pub takes_plan_key-IsSound :
    (tenant_id run_id key : Text) (r : Run)
    → IsSound r
    → takes_plan_key tenant_id run_id r ≡ true
    → IsSound (record r { plan_artifact_dek = some key })
takes_plan_key-IsSound tenant_id run_id key r s t = ground arith
