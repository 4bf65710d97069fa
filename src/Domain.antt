-- ===== src/Domain.antt =====
-- internal/domain/template_run.go, workflow.go, stack_template.go and ids.go: the vocabulary of a
-- template run. Go spells each of these types as a string: the constructors are the declared
-- constants, and `other` is any other text, numbered.
use tflive.Common.{ℕ, ◌+◌, Bool, true, false, ◌||◌, ◌==◌, List, [], ◌∷◌, any}

-- Identifiers, JSON documents and messages are texts that this code only compares and stores. A
-- number stands for each text, the first two for the empty text and for `{}`.
abbrev pub Text : Type 0
Text = ℕ

abbrev pub no_text : Text
no_text = 0

abbrev pub empty_object : Text
empty_object = 1

pub data OperationType : Type 0 where
  plan apply destroy : OperationType
  other : Text → OperationType

abbrev operation_id : OperationType → ℕ
operation_id OperationType.plan = 0
operation_id OperationType.apply = 1
operation_id OperationType.destroy = 2
operation_id (OperationType.other t) = 3 + t

abbrev pub same_operation : OperationType → OperationType → Bool
same_operation a b = operation_id a == operation_id b

unfoldable pub operation_valid : OperationType → Bool
operation_valid (OperationType.other t) = false
operation_valid _ = true

pub data TemplateRunStatus : Type 0 where
  queued running waiting_approval approved completed failed canceled : TemplateRunStatus
  other : Text → TemplateRunStatus

abbrev status_id : TemplateRunStatus → ℕ
status_id TemplateRunStatus.queued = 0
status_id TemplateRunStatus.running = 1
status_id TemplateRunStatus.waiting_approval = 2
status_id TemplateRunStatus.approved = 3
status_id TemplateRunStatus.completed = 4
status_id TemplateRunStatus.failed = 5
status_id TemplateRunStatus.canceled = 6
status_id (TemplateRunStatus.other t) = 7 + t

abbrev pub same_status : TemplateRunStatus → TemplateRunStatus → Bool
same_status a b = status_id a == status_id b

-- `slices.Contains`.
abbrev pub contains_status : List TemplateRunStatus → TemplateRunStatus → Bool
contains_status xs s = any (λ x. same_status x s) xs

abbrev pub all_template_run_statuses : List TemplateRunStatus
all_template_run_statuses =
    TemplateRunStatus.queued ∷ TemplateRunStatus.running ∷ TemplateRunStatus.waiting_approval
    ∷ TemplateRunStatus.approved ∷ TemplateRunStatus.completed ∷ TemplateRunStatus.failed
    ∷ TemplateRunStatus.canceled ∷ []

unfoldable pub status_valid : TemplateRunStatus → Bool
status_valid s = contains_status all_template_run_statuses s

abbrev pub terminal : TemplateRunStatus → Bool
terminal TemplateRunStatus.completed = true
terminal TemplateRunStatus.failed = true
terminal TemplateRunStatus.canceled = true
terminal _ = false

pub data TemplateRunStep : Type 0 where
  waiting_for_executor preparing_workspace fetching_source restoring_plan : TemplateRunStep
  initializing selecting_workspace planning saving_plan applying : TemplateRunStep
  other : Text → TemplateRunStep

abbrev step_id : TemplateRunStep → ℕ
step_id TemplateRunStep.waiting_for_executor = 0
step_id TemplateRunStep.preparing_workspace = 1
step_id TemplateRunStep.fetching_source = 2
step_id TemplateRunStep.restoring_plan = 3
step_id TemplateRunStep.initializing = 4
step_id TemplateRunStep.selecting_workspace = 5
step_id TemplateRunStep.planning = 6
step_id TemplateRunStep.saving_plan = 7
step_id TemplateRunStep.applying = 8
step_id (TemplateRunStep.other t) = 9 + t

abbrev pub same_step : TemplateRunStep → TemplateRunStep → Bool
same_step a b = step_id a == step_id b

abbrev pub all_template_run_steps : List TemplateRunStep
all_template_run_steps =
    TemplateRunStep.waiting_for_executor ∷ TemplateRunStep.preparing_workspace
    ∷ TemplateRunStep.fetching_source ∷ TemplateRunStep.restoring_plan
    ∷ TemplateRunStep.initializing ∷ TemplateRunStep.selecting_workspace ∷ TemplateRunStep.planning
    ∷ TemplateRunStep.saving_plan ∷ TemplateRunStep.applying ∷ []

unfoldable pub step_valid : TemplateRunStep → Bool
step_valid s = any (λ x. same_step x s) all_template_run_steps

pub data TemplateRunEvent : Type 0 where
  applied destroying destroyed : TemplateRunEvent
  other : Text → TemplateRunEvent

pub data RunPhase : Type 0 where
  plan apply : RunPhase
  other : Text → RunPhase

abbrev phase_id : RunPhase → ℕ
phase_id RunPhase.plan = 0
phase_id RunPhase.apply = 1
phase_id (RunPhase.other t) = 2 + t

abbrev pub same_phase : RunPhase → RunPhase → Bool
same_phase a b = phase_id a == phase_id b

abbrev pub phase_valid : RunPhase → Bool
phase_valid phase = same_phase phase RunPhase.plan || same_phase phase RunPhase.apply

pub data ExecutionStatus : Type 0 where
  running succeeded failed : ExecutionStatus

abbrev pub is_running : ExecutionStatus → Bool
is_running ExecutionStatus.running = true
is_running _ = false

pub data PlanOutcome : Type 0 where
  no_changes waiting planned : PlanOutcome
  other : Text → PlanOutcome

pub record PlanSummary : Type 0 where
  pub add : ℕ
  pub change : ℕ
  pub destroy : ℕ

pub data StackTemplateLifecycle : Type 0 where
  active destroying destroyed failed orphaned : StackTemplateLifecycle

abbrev pub is_destroying : StackTemplateLifecycle → Bool
is_destroying StackTemplateLifecycle.destroying = true
is_destroying _ = false

pub data TerraformCommandType : Type 0 where
  init select_workspace plan plan_destroy apply destroy apply_auto_approve : TerraformCommandType
