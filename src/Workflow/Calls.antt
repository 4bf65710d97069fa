-- ===== src/Workflow/Calls.antt =====
-- What the two workflows of internal/workflows/template_run.go ask of Temporal: the activities of
-- internal/domain/workflow.go and the executor session, with the answer that each gives. An activity
-- runs once (both retry policies have MaximumAttempts 1), and may fail. Its input's fields that are
-- copied from the workflow's own input are left out, but for those of a log.
use tflive.Common.{ℕ, Bool, true, false, List, ◌∷◌, Option}
use tflive.Common.Results.{Result, ok, err}
use tflive.Domain.{
  Text, OperationType, TemplateRunStatus, TemplateRunStep, TemplateRunEvent, RunPhase, PlanOutcome,
  PlanSummary, TerraformCommandType,
}

-- TemplateRunWorkflowInput. A timeout is in nanoseconds; zero is none.
pub record WorkflowInput : Type 0 where
  pub run_id : Text
  pub tenant_id : Text
  pub stack_template_id : Text
  pub operation : OperationType
  pub selected_ref : Text
  pub resolved_commit_sha : Text
  pub workspace_name : Text
  pub repo_owner : Text
  pub repo_name : Text
  pub root_path : Text
  pub config_json : Text
  pub auto_approve : Bool
  pub terraform_timeout : ℕ

-- TemplateRunLog, without the sizes and times that no decision reads.
pub record RunLog : Type 0 where
  pub tenant_id : Text
  pub run_id : Text
  pub phase : Text
  pub object_key : Text

-- Why the workflow does not carry a run.
pub data Refusal : Type 0 where
  plans_no_auto_approved applies_no_plan destroys_no_auto_approved : Refusal
  unsupported_operation : Refusal

-- An error as the workflows see it: an activity's, with the log that a failed command attached; their
-- own; and one that wraps another that followed it.
pub data Failure : Type 0 where
  activity : Text → Option RunLog → Failure
  refused : Refusal → Failure
  unknown_outcome : PlanOutcome → Failure
  also : Failure → Failure → Failure

pub record PreparedWorkspace : Type 0 where
  pub path : Text
  pub public_key : Text

pub record SourceToken : Type 0 where
  pub sealed_token : Text
  pub fetch_hint : Text

pub record TerraformOutput : Type 0 where
  pub log : RunLog
  pub has_changes : Bool
  pub summary : PlanSummary

pub data PlanTransfer : Type 0 where
  upload download : PlanTransfer

pub data Call : Type 0 where
  -- control queue; an error summary is the failure that it prints
  record_status : TemplateRunStatus → Option Failure → RunPhase → Call
  record_step : TemplateRunStep → Call
  record_event : TemplateRunEvent → Option PlanSummary → Call
  record_log : RunLog → Call
  finish_plan : Bool → PlanSummary → Call
  begin_apply : Bool → Call
  seal_source_token : Text → Call
  seal_plan_key : Text → Bool → Call
  seal_credentials : Text → Call
  -- the session, with how long to wait for it
  create_session : ℕ → Call
  complete_session : Call
  -- execution queue
  prepare_workspace : Call
  fetch_source : Text → SourceToken → Call
  run_terraform : TerraformCommandType → RunPhase → Text → Text → Text → ℕ → Call
  transfer_plan : PlanTransfer → Text → Text → Call
  release_run_key : Call
  cleanup_workspace : Text → Bool → Call

-- What a call that succeeds answers.
abbrev pub Answer : Call → Type 0
Answer (finish_plan has_changes summary) = PlanOutcome
Answer (begin_apply auto_approve) = Bool
Answer (seal_source_token key) = SourceToken
Answer (seal_plan_key key create) = Text
Answer (seal_credentials key) = Text
Answer prepare_workspace = PreparedWorkspace
Answer (fetch_source path token) = Text
Answer (run_terraform command phase path terraform_path sealed timeout) = TerraformOutput
Answer _ = Unit {0}

-- Whether a call did what it asks for: it succeeded, and a claim was granted.
abbrev pub done : (c : Call) → Result Failure (Answer c) → Bool
done (begin_apply auto_approve) (ok claimed) = claimed
done c (ok a) = true
done c (err e) = false

-- The calls made so far, newest first, each with whether it was done.
abbrev pub Trace : Type 0
Trace = List (Call × Bool)

-- Temporal, the activities and the executors: how a call ends, after those before it.
abbrev pub Environment : Type 0
Environment = (c : Call) → Trace → Result Failure (Answer c)

-- A workflow's code: it makes calls, and returns a value or an error.
abbrev pub W : Type 0 → Type 0
W A = Trace → Result Failure A × Trace

abbrev pub pure : {A : Type 0} → A → W A
pure a t = (ok a, t)

abbrev pub fail : {A : Type 0} → Failure → W A
fail e t = (err e, t)

abbrev pub continue : {A B : Type 0} → Result Failure A → (A → W B) → W B
continue (ok a) f t = f a t
continue (err e) f t = (err e, t)

infixl 5 ◌>>=◌ ◌>>◌
abbrev pub ◌>>=◌ : {A B : Type 0} → W A → (A → W B) → W B
◌>>=◌ m f t = continue (m t).0 f (m t).1

abbrev pub ◌>>◌ : {A B : Type 0} → W A → W B → W B
◌>>◌ m k = ◌>>=◌ m (λ _. k)

-- `ExecuteActivity(...).Get(...)`.
abbrev pub call : Environment → (c : Call) → W (Answer c)
call env c t = (env c t, (c, done c (env c t)) ∷ t)

-- What follows an error, in place of it.
abbrev pub on_error : {A : Type 0} → Result Failure A → (Failure → W A) → W A
on_error (ok a) h t = (ok a, t)
on_error (err e) h t = h e t

abbrev pub catch : {A : Type 0} → W A → (Failure → W A) → W A
catch m h t = on_error (m t).0 h (m t).1

-- `defer`: `after` runs whatever the outcome, which stays, and its own outcome is dropped.
abbrev pub finally : {A B : Type 0} → W B → W A → W A
finally after m t = ((m t).0, (after (m t).1).1)
