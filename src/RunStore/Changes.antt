-- ===== src/RunStore/Changes.antt =====
-- What one operation does to the table of runs: nothing, one row written along the lifecycle, or one
-- queued row added.
pub mod Progress
pub mod Claims
pub mod Operations
use tflive.Common.{
  ℕ, Bool, true, false, ◌≡◌, refl, arith, ◌⊎◌, inl, inr, ◌==◌, ◌+◌, not, List, [], ◌∷◌, ◌++◌,
  Option, some, find?, replace, any, All, All-find?, find?-test, Option-cases,
}
use tflive.Common.Results.{ok, err, or_fail, or_fail-eq-ok, guard, >>=-eq-ok}
use tflive.Domain.{
  Text, PlanOutcome, same_operation, step_valid, TemplateRunStatus, TemplateRunStep, same_status,
}
use tflive.RunStore.Rows.{M, Run, Approval, Discard, Database, in_flight, is_run}
use tflive.RunStore.Status.{
  StatusInput, is_input_run, move_run, workflow_status_sources, settle_stack_templates,
  record_template_run_status,
}
use tflive.RunStore.Progress.{
  EventInput, is_event_run, run_step, event_counts, template_run_event_operations,
  event_stack_templates, record_template_run_step, record_template_run_event,
}
use tflive.RunStore.Plans.{
  FinishPlanInput, is_planned_run, finish_plan_run, claimable, claim_run, takes_claim, commit_claim,
  takes_discard, takes_approval, discardable, discard_run, approvable, approve_run,
  finish_template_plan, begin_template_apply, discard_template_run, approve_template_run,
}
use tflive.RunStore.Operations.{
  queued_run, committed, committed_with, Operation, creates, records_status, records_step,
  records_event, finishes_plan, begins_apply, approves, discards, creates_plan_key, perform,
  FromWorkflow,
}
use tflive.RunStore.Create.{
  inserted, max_run_number, takes_plan_key, plan_key, fill_plan_key, create_template_run,
  create_plan_key,
}
use tflive.RunStore.Soundness.{IsSound}
use tflive.RunStore.Soundness.Rows.{
  move_run-IsSound, run_step-IsSound, event_counts-IsSound, finish_plan_run-IsSound,
  claim_run-IsSound, discard_run-IsSound, approve_run-IsSound, inserted-IsSound,
  takes_plan_key-IsSound,
}
use tflive.RunStore.Lifecycle.{Follows}
use tflive.RunStore.Lifecycle.Rows.{
  move_run-Follows, run_step-Follows, event_counts-Follows, finish_plan_run-Follows,
  claim_run-Follows, discard_run-Follows, approve_run-Follows,
}

-- One row of the table is written.
pub record Writes (runs runs' : List Run) : Type 0 where
  pub takes : Run → Bool
  pub previous : Run
  pub next : Run
  pub found : find? takes runs ≡ some previous
  pub sound : IsSound next
  pub follows : Follows previous next
  pub written : runs' ≡ replace takes next runs

-- One row is added.
pub record Adds (runs runs' : List Run) : Type 0 where
  pub added : Run
  pub sound : IsSound added
  pub queued : added.status ≡ TemplateRunStatus.queued
  pub fresh : any (λ x. x.id == added.id) runs ≡ false
  pub alone : any (in_flight added.tenant_id added.stack_template_id) runs ≡ false
  pub appended : runs' ≡ runs ++ added ∷ []

abbrev pub Update : List Run → List Run → Type 0
Update runs runs' = (runs' ≡ runs) ⊎ Writes runs runs'

abbrev pub Change : List Run → List Run → Type 0
Change runs runs' = (runs' ≡ runs) ⊎ Writes runs runs' ⊎ Adds runs runs'
