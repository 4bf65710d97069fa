-- ===== src/RunStore/Plans.antt =====
-- internal/postgres/saved_plans.go: a finished plan, the claim of a run by its apply, and a discard;
-- and the approval of repositories.go.
use tflive.Common.{
  ℕ, ◌+◌, ◌==◌, Bool, true, false, ◌&&◌, ◌||◌, not, List, none, some, if◌then◌else◌, find?, replace,
  update_where,
}
use tflive.Common.Results.{ok, err, ◌>>=◌, ◌>>◌, guard, or_fail}
use tflive.Domain.{
  Text, no_text, OperationType, same_operation, TemplateRunStatus, same_status, RunPhase,
  ExecutionStatus, PlanOutcome, PlanSummary,
}
use tflive.RunStore.Rows.{
  M, not_found, no_running_execution, not_approvable, unique_violation, Approval, Discard, Run,
  StackTemplate, Database, is_run, is_run_of,
}
use tflive.RunStore.Executions.{
  insert_workflow_execution, finish_running_execution, record_plan_counts,
}
use tflive.RunStore.Status.{coalesce_now, drop_plan_key, release_pending}
use tflive.RunStore.Progress.{make_live}

pub record FinishPlanInput : Type 0 where
  pub tenant_id : Text
  pub run_id : Text
  pub stack_template_id : Text
  pub operation : OperationType
  pub has_changes : Bool
  pub summary : PlanSummary

-- A plan with changes of an apply or destroy run: the run waits, and its plan execution ends here.
unfoldable pub wait_for_approval : ℕ → PlanSummary → Run → M (Run × PlanOutcome)
unfolding record_plan_counts finish_running_execution
wait_for_approval now summary r = do
  counted ← record_plan_counts summary (record r { status = TemplateRunStatus.waiting_approval })
  let finished =
      finish_running_execution now RunPhase.plan ExecutionStatus.succeeded no_text counted
  guard (finished.1 || same_status r.status TemplateRunStatus.waiting_approval) no_running_execution
  ok (finished.0, PlanOutcome.waiting)

-- What a finished plan does to its run, and what follows it.
unfoldable pub finish_plan_run : ℕ → FinishPlanInput → Run → M (Run × PlanOutcome)
unfolding record_plan_counts wait_for_approval
finish_plan_run now input r =
    if not input.has_changes
    then ok (r, PlanOutcome.no_changes)
    else if same_operation input.operation OperationType.plan
    then record_plan_counts input.summary r >>= (λ counted. ok (counted, PlanOutcome.planned))
    else wait_for_approval now input.summary r

abbrev pub is_template_of : Run → StackTemplate → Bool
is_template_of r s = s.tenant_id == r.tenant_id && s.id == r.stack_template_id

-- `set pending_plan_run_id = template_runs.id, ...`.
abbrev pub make_pending : ℕ → Run → StackTemplate → StackTemplate
make_pending now r s = record s {
  pending_plan_run_id = r.id;
  pending_plan_template_revision_id = r.template_revision_id;
  pending_plan_config_json = some r.config_json;
  pending_plan_at = some now;
}

unfoldable pub finish_plan_stack_templates :
    ℕ → FinishPlanInput → PlanOutcome → Run → List StackTemplate → List StackTemplate
finish_plan_stack_templates now input PlanOutcome.no_changes r ss =
    if same_operation input.operation OperationType.destroy
    then ss
    else update_where (is_template_of r) (make_live now r) ss
finish_plan_stack_templates now input PlanOutcome.waiting r ss =
    update_where (is_template_of r) (make_pending now r) ss
finish_plan_stack_templates now input PlanOutcome.planned r ss = ss
finish_plan_stack_templates now input (PlanOutcome.other t) r ss = ss

abbrev pub is_planned_run : FinishPlanInput → Run → Bool
is_planned_run input =
    is_run_of input.tenant_id input.run_id input.stack_template_id input.operation

unfoldable pub finish_template_plan : ℕ → FinishPlanInput → Database → M (Database × PlanOutcome)
unfolding finish_plan_run finish_plan_stack_templates
finish_template_plan now input db = do
  r ← or_fail (find? (is_planned_run input) db.runs) not_found
  (finished, outcome) ← finish_plan_run now input r
  ok (
    record db {
      runs = replace (is_planned_run input) finished db.runs;
      stack_templates = finish_plan_stack_templates now input outcome r db.stack_templates;
    },
    outcome,
  )

abbrev pub same_bool : Bool → Bool → Bool
same_bool true b = b
same_bool false b = not b

-- The status that a claim starts from.
abbrev pub claimed_from : Bool → TemplateRunStatus
claimed_from auto_approve =
    if auto_approve then TemplateRunStatus.queued else TemplateRunStatus.approved

abbrev pub claimable : Bool → Run → Bool
claimable auto_approve r =
    (same_status r.status (claimed_from auto_approve)
      || same_status r.status TemplateRunStatus.running)
    && same_bool r.auto_approve auto_approve

abbrev pub takes_claim : Text → Text → Bool → Run → Bool
takes_claim tenant_id run_id auto_approve r = is_run tenant_id run_id r && claimable auto_approve r

-- The claim of a claimable run.
unfoldable pub claim_run : ℕ → ℕ → Text → Run → M Run
unfolding insert_workflow_execution
claim_run now id workflow_id r = do
  (claimed, _) ←
      insert_workflow_execution now id RunPhase.apply workflow_id ExecutionStatus.running no_text
        (record r { status = TemplateRunStatus.running })
  ok claimed

unfoldable pub commit_claim : ℕ → Text → Text → Bool → Text → Database → Run → M (Database × Bool)
unfolding claim_run
commit_claim now tenant_id run_id auto_approve workflow_id db r = do
  claimed ← claim_run now db.next_execution_id workflow_id r
  ok (
    record db {
      runs = replace (takes_claim tenant_id run_id auto_approve) claimed db.runs;
      next_execution_id = db.next_execution_id + 1;
    },
    true,
  )

-- `update ... where tenant_id, id, status, auto_approve`: no row is a lost claim.
unfoldable pub begin_template_apply : ℕ → Text → Text → Bool → Text → Database → M (Database × Bool)
unfolding commit_claim
begin_template_apply now tenant_id run_id auto_approve workflow_id db =
    elim (find? (takes_claim tenant_id run_id auto_approve) db.runs) [
      | none ↦ ok (db, false)
      | some r ↦ commit_claim now tenant_id run_id auto_approve workflow_id db r
    ]

abbrev pub discardable : Run → Bool
discardable r =
    same_status r.status TemplateRunStatus.waiting_approval
    || same_status r.status TemplateRunStatus.approved

abbrev pub discard_run : ℕ → Discard → Run → Run
discard_run now discard r = drop_plan_key (record r {
  status = TemplateRunStatus.canceled;
  cancellation = some discard;
  completed_at = coalesce_now r.completed_at now;
})

abbrev pub takes_discard : Text → Text → Run → Bool
takes_discard tenant_id run_id r = is_run tenant_id run_id r && discardable r

abbrev pub commit_discard : ℕ → Text → Text → Discard → Database → Run → Database × Bool
commit_discard now tenant_id run_id discard db r = (
  record db {
    runs = replace (takes_discard tenant_id run_id) (discard_run now discard r) db.runs;
    stack_templates = release_pending tenant_id run_id db.stack_templates;
  },
  true,
)

-- It reports whether it discarded.
unfoldable pub discard_template_run : ℕ → Text → Text → Discard → Database → Database × Bool
unfolding release_pending
discard_template_run now tenant_id run_id discard db =
    elim (find? (takes_discard tenant_id run_id) db.runs) [
      | none ↦ (db, false)
      | some r ↦ commit_discard now tenant_id run_id discard db r
    ]

abbrev pub approvable : Run → Bool
approvable r = same_status r.status TemplateRunStatus.waiting_approval

abbrev pub takes_approval : Text → Text → Run → Bool
takes_approval tenant_id run_id r = is_run tenant_id run_id r && approvable r

-- `insert into template_run_approvals`, whose primary key is the run.
unfoldable pub approve_run : Approval → Run → M Run
approve_run approval r = elim r.approval [
  | some _ ↦ err unique_violation
  | none ↦ ok (record r { status = TemplateRunStatus.approved; approval = some approval })
]

unfoldable pub approve_template_run : Text → Text → Approval → Database → M Database
unfolding approve_run
approve_template_run tenant_id run_id approval db = do
  r ← or_fail (find? (takes_approval tenant_id run_id) db.runs) not_approvable
  approved ← approve_run approval r
  ok (record db { runs = replace (takes_approval tenant_id run_id) approved db.runs })
