-- ===== src/RunStore/Soundness.antt =====
-- What every stored run satisfies between two transactions, over the rows of RunStore/Rows.
pub mod Rows
use tflive.Common.{Bool, true, false, ◌≡◌, refl, ◌&&◌, ◌||◌, Option, none, some, ◌⊎◌}
use tflive.Domain.{TemplateRunStatus, same_status, terminal, ExecutionStatus}
use tflive.RunStore.Rows.{Run, Execution, Approval, execution_running}

abbrev pub is_some {ℓ} : {A : Type ℓ} → Option A → Bool
is_some none = false
is_some (some _) = true

abbrev pub execution_succeeded : Option Execution → Bool
execution_succeeded none = false
execution_succeeded (some e) = elim e.status [ ExecutionStatus.succeeded ↦ true | _ ↦ false ]

-- The execution has claimed the run, and has not failed.
abbrev pub execution_claimed : Option Execution → Bool
execution_claimed none = false
execution_claimed (some e) = elim e.status [ ExecutionStatus.failed ↦ false | _ ↦ true ]

-- What is applied was approved, in advance or after its plan.
abbrev pub IsApproved : Run → Type 0
IsApproved r =
    execution_claimed r.apply_execution ≡ true
    → (r.auto_approve ≡ true) ⊎ (is_some r.approval ≡ true)

pub record IsSound (r : Run) : Type 0 where
  -- no workflow has carried a queued run yet
  pub queued_fresh :
      same_status r.status TemplateRunStatus.queued ≡ true
      → (r.plan_execution ≡ none) × (r.apply_execution ≡ none) × (r.approval ≡ none)
  -- a run is running exactly when one of its executions is
  pub running_executes :
      same_status r.status TemplateRunStatus.running
      ≡ (execution_running r.plan_execution || execution_running r.apply_execution)
  pub one_running :
      (execution_running r.plan_execution && execution_running r.apply_execution) ≡ false
  -- nothing was approved or applied while the plan still runs
  pub planning_unapproved :
      execution_running r.plan_execution ≡ true → (r.apply_execution ≡ none) × (r.approval ≡ none)
  pub waiting_planned :
      same_status r.status TemplateRunStatus.waiting_approval ≡ true
      → (execution_succeeded r.plan_execution ≡ true)
        × (r.apply_execution ≡ none)
        × (r.approval ≡ none)
  pub approved_planned :
      same_status r.status TemplateRunStatus.approved ≡ true
      → (execution_succeeded r.plan_execution ≡ true)
        × (r.apply_execution ≡ none)
        × (is_some r.approval ≡ true)
  -- a terminal run has no plan key, and a completion time
  pub terminal_dropped : terminal r.status ≡ true → r.plan_artifact_dek ≡ none
  pub completed_terminal : is_some r.completed_at ≡ terminal r.status
  pub applied_approved : IsApproved r
