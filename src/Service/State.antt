-- ===== src/Service/State.antt =====
-- What the commands of internal/app/service.go read and write, their errors, and what they call
-- outside the repository's code. A text is a number (Domain), and a list of code points where
-- the authorization reads it.
use tflive.Common.{ℕ, Bool, true, false, List, [], Option}
use tflive.Common.Results.{Result, ok, err}
use tflive.Common.Chars.{Chars}
use tflive.Domain.{Text, StackTemplateLifecycle}
use tflive.RunStore.Rows.{StoreError, Database, StackTemplate}
use tflive.Queue.Specs.{SpecError, SpecRegistry}
use tflive.Queue.Store.{WorkQueue}
use tflive.Workflow.Calls.{WorkflowInput}
use tflive.Access.Requests.{AccessError, Answer}

pub data TemplateRevisionStatus : Type 0 where
  pending_validation validating active invalid : TemplateRevisionStatus
  other : Text → TemplateRevisionStatus

abbrev pub is_active_revision : TemplateRevisionStatus → Bool
is_active_revision TemplateRevisionStatus.active = true
is_active_revision _ = false

-- TemplateRevision, without the fields that no command reads.
pub record TemplateRevision : Type 0 where
  pub id : Text
  pub tenant_id : Text
  pub source_template_id : Text
  pub repo_owner : Text
  pub repo_name : Text
  pub source_ref : Text
  pub resolved_commit_sha : Text
  pub root_path : Text
  pub status : TemplateRevisionStatus

-- TemplateVariable, without the fields that no command reads.
pub record TemplateVariable : Type 0 where
  pub template_revision_id : Text
  pub name : Text
  pub required : Bool

pub data SecurityAction : Type 0 where
  failed_access_attempt approval_granted : SecurityAction

-- SecurityAuditEvent. The outcome is a failure for a refused attempt and a success for an approval.
pub record SecurityEvent : Type 0 where
  pub actor_subject : Chars
  pub action : SecurityAction
  pub tenant_id : Text
  pub stack_id : Text

pub record ServiceStore : Type 0 where
  pub database : Database
  pub template_revisions : List TemplateRevision
  pub template_variables : List TemplateVariable
  pub work : WorkQueue
  pub audit_events : List SecurityEvent

pub data ServiceError : Type 0 where
  refused : AccessError → ServiceError
  invalid_command not_found invalid_owning_stack : ServiceError
  stack_template_not_runnable stack_template_upgrade_invalid : ServiceError
  stack_template_config_invalid stack_template_plan_stale : ServiceError
  template_not_installable template_run_in_flight : ServiceError
  run_not_approvable run_not_discardable : ServiceError
  actors_not_labelled not_encoded : ServiceError
  store_failed : StoreError → ServiceError
  not_enqueued : SpecError → ServiceError

-- A command that fails has written nothing but the audit events of the attempt.
pub record Failure : Type 0 where
  pub reason : ServiceError
  pub audited : List SecurityEvent

abbrev pub Served {ℓ} : Type ℓ → Type ℓ
Served A = Result Failure A

abbrev pub failure : ServiceError → Failure
failure reason = record { reason = reason; audited = [] }

abbrev pub passed {ℓ} : {A : Type ℓ} → Answer A → Served A
passed (err reason) = err (failure (refused reason))
passed (ok value) = ok value

abbrev pub stored {ℓ} : {A : Type ℓ} → Result StoreError A → Served A
stored (err reason) = err (failure (store_failed reason))
stored (ok value) = ok value

abbrev pub accepted {ℓ} : {A : Type ℓ} → Result SpecError A → Served A
accepted (err reason) = err (failure (not_enqueued reason))
accepted (ok value) = ok value

-- What json.Unmarshal into map[string]json.RawMessage leaves: an error, the nil map of `null`, or
-- the entries, one of a name.
pub data Decoded : Type 0 where
  not_an_object null_object : Decoded
  object : List (Text × Text) → Decoded

-- encoding/json. `parse` is the value of a text up to reflect.DeepEqual, which a number stands for;
-- `null` is the text null.
pub record Json : Type 0 where
  pub parse : Text → Option ℕ
  pub decode : Text → Decoded
  pub encode : List (Text × Text) → Option Text
  pub encode_input : WorkflowInput → Option Text
  pub null : Text

-- What a deployment provides: JSON, the spelling of texts, and the queue's specs.
pub record Deployment : Type 0 where
  pub json : Json
  pub spell : Text → Chars
  pub number : Chars → Text
  pub specs : SpecRegistry

-- What the clock and the identifier generator give to one command, and whether the repository of
-- users, which the service has, answers.
pub record Arrival : Type 0 where
  pub now : ℕ
  pub fresh_id : Text
  pub users_answer : Bool

abbrev pub is_active : StackTemplate → Bool
is_active s = elim s.lifecycle [ StackTemplateLifecycle.active ↦ true | _ ↦ false ]
