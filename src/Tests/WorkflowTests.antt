-- ===== src/Tests/WorkflowTests.antt =====
-- The workflows in the environment where every call succeeds, and instances of their theorems.
use tflive.Common.{ℕ, true, false, ◌≡◌, refl, arith, List, [], ◌∷◌, ◌++◌, map}
use tflive.Domain.{RunPhase, TemplateRunStatus, step_valid}
use tflive.RunStore.Rows.{running_phase}
use tflive.RunStore.Operations.{Operation, creates, approves, run_history, perform}
use tflive.RunStore.History.{IsConsistent}
use tflive.Workflow.Lifecycle.{
  template_plan_workflow, template_apply_workflow, carry_plan, plan_refusal, plan, apply,
  apply_refusal, carry_apply, carry_claimed, settle_plan,
}
use tflive.Workflow.Safety.{lawful, in_open_session}
use tflive.Workflow.Safety.Workflows.{template_plan_workflow-lawful, template_apply_workflow-lawful}
use tflive.Workflow.Outcome.{
  Reported, template_plan_workflow-Reported, template_apply_workflow-Reported,
}
use tflive.Concurrency.{
  Delivery, transactions, Shuffle, neither, left, right, Interleaved, idle, plan_workflow,
  apply_workflow, service, run_history-Interleaved,
}
use tflive.Workflow.Control.{
  fail_on_error, set_status, record_progress, execute_step, log, event, terraform_timeout,
}
use tflive.Workflow.Session.{
  in_session, in_workspace, open_workspace, ready, fetch_source_step, terraform, run_command,
  save_plan, transfer_plan_step, close_workspace, restore_saved_plan,
}
use tflive.RunStore.Create.{create_plan_key, create_template_run, fill_plan_key, plan_key}
use tflive.RunStore.Executions.{
  end_workflow_execution, finish_running_execution, insert_workflow_execution, record_plan_counts,
  record_running_counts,
}
use tflive.RunStore.Plans.{
  approve_run, approve_template_run, begin_template_apply, claim_run, commit_claim, finish_plan_run,
  finish_plan_stack_templates, finish_template_plan, wait_for_approval,
}
use tflive.RunStore.Progress.{
  event_counts, event_stack_templates, record_last_applied, record_template_run_event,
  record_template_run_step, run_step, start_step, start_step_of, template_run_event_operations,
}
use tflive.RunStore.Status.{
  end_run, move_run, record_template_run_status, release_pending, settle_stack_templates, start_run,
  workflow_status_sources,
}
use tflive.Tests.Samples.{sample_input, sample_environment, empty_database, sample_run}

template_plan_workflow-lawful_example :
    lawful sample_input (template_plan_workflow sample_environment sample_input []).1 ≡ true
    × in_open_session (template_plan_workflow sample_environment sample_input []).1 ≡ false
template_plan_workflow-lawful_example =
    template_plan_workflow-lawful sample_environment sample_input

template_apply_workflow-lawful_example :
    lawful sample_input (template_apply_workflow sample_environment sample_input []).1 ≡ true
    × in_open_session (template_apply_workflow sample_environment sample_input []).1 ≡ false
template_apply_workflow-lawful_example =
    template_apply_workflow-lawful sample_environment sample_input

template_plan_workflow-Reported_example :
    Reported sample_environment RunPhase.plan
      (template_plan_workflow sample_environment sample_input []).0
      (template_plan_workflow sample_environment sample_input []).1
template_plan_workflow-Reported_example =
    template_plan_workflow-Reported sample_environment sample_input

template_apply_workflow-Reported_example :
    Reported sample_environment RunPhase.apply
      (template_apply_workflow sample_environment sample_input []).0
      (template_apply_workflow sample_environment sample_input []).1
template_apply_workflow-Reported_example =
    template_apply_workflow-Reported sample_environment sample_input

abbrev delivery : ℕ → Delivery
delivery workflow_id = record {
  workflow_id = workflow_id;
  now = λ t. 200;
  begun = λ c t. true;
  printed = λ e. 60;
  fresh_key = λ t. 61;
}

abbrev plan_transactions : List (ℕ × Operation)
plan_transactions =
    transactions (delivery 30) sample_input
      (template_plan_workflow sample_environment sample_input []).1

abbrev apply_transactions : List (ℕ × Operation)
apply_transactions =
    transactions (delivery 31) sample_input
      (template_apply_workflow sample_environment sample_input []).1

abbrev approval : ℕ × Operation
approval = (150, approves 2 11 (record { approved_by = 21; approved_at = 150 }))

abbrev creation : ℕ × Operation
creation = (100, creates sample_run)

-- The run is created, planned, approved and applied.
abbrev pub carried : List (ℕ × Operation)
carried = creation ∷ plan_transactions ++ approval ∷ apply_transactions

one_after_another : {A : Type 0} (xs ys : List A) → Shuffle xs ys (xs ++ ys)
one_after_another [] [] = neither
one_after_another [] (y ∷ ys) = right (one_after_another [] ys)
one_after_another (x ∷ xs) ys = left (one_after_another xs ys)

carried-Interleaved : Interleaved carried
carried-Interleaved =
    let applying =
      apply_workflow sample_environment (delivery 31) sample_input idle
        (all_left apply_transactions) in
    let approving =
      service (approval ∷ []) (tt, tt) applying
        (one_after_another (approval ∷ []) apply_transactions) in
    let planning =
      plan_workflow sample_environment (delivery 30) sample_input approving
        (one_after_another plan_transactions (approval ∷ apply_transactions)) in
    service (creation ∷ []) (tt, tt) planning
      (one_after_another (creation ∷ []) (plan_transactions ++ approval ∷ apply_transactions))
  where
    all_left : {A : Type 0} (xs : List A) → Shuffle xs [] xs
    all_left [] = neither
    all_left (x ∷ xs) = left (all_left xs)

run_history-Interleaved_example : IsConsistent (run_history carried empty_database)
run_history-Interleaved_example =
    run_history-Interleaved carried empty_database carried-Interleaved
      (record { sound = tt; exclusive = λ t s. ground arith; unique = λ i. ground arith })

carried_completes :
    map (λ r. r.status) (run_history carried empty_database).runs ≡ TemplateRunStatus.completed ∷ []
unfolding fail_on_error carry_plan plan_refusal set_status in_session record_progress in_workspace
    open_workspace execute_step plan ready fetch_source_step terraform run_command log save_plan
    transfer_plan_step step_valid create_plan_key create_template_run fill_plan_key plan_key
    end_workflow_execution finish_running_execution insert_workflow_execution record_plan_counts
    record_running_counts perform approve_run approve_template_run begin_template_apply claim_run
    commit_claim finish_plan_run finish_plan_stack_templates finish_template_plan wait_for_approval
    event_counts event_stack_templates record_last_applied record_template_run_event
    record_template_run_step run_step start_step start_step_of template_run_event_operations
    running_phase end_run move_run record_template_run_status release_pending settle_stack_templates
    start_run workflow_status_sources event terraform_timeout apply apply_refusal carry_apply
    carry_claimed settle_plan close_workspace restore_saved_plan template_plan_workflow
    template_apply_workflow run_history
carried_completes = refl
