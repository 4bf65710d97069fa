-- ===== src/Service/Runs.antt =====
-- StartTemplateRun, ApproveRun and DiscardRun of internal/app/service.go, each with the transaction
-- of its unit of work: the run store, the audit events and the work queue commit together.
use tflive.Common.{◌==◌, Bool, true, false, ◌&&◌, [], ◌∷◌, ◌++◌, none, some, if◌then◌else◌, find?}
use tflive.Common.Results.{ok, ◌>>=◌, ◌>>◌, guard, or_fail}
use tflive.Common.Chars.{Chars}
use tflive.Domain.{Text, no_text, TemplateRunStatus, same_status}
use tflive.RunStore.Rows.{Run, StackTemplate, is_stack_template}
use tflive.RunStore.Create.{create_template_run}
use tflive.RunStore.Plans.{approve_template_run, discard_template_run}
use tflive.Queue.Specs.{Request}
use tflive.Queue.Store.{enqueue_requests}
use tflive.Workflow.Calls.{WorkflowInput}
use tflive.Authorization.Relations.{relation_can_operate, relation_can_approve}
use tflive.Access.Requests.{AccessError, Caller, require_principal, authorize_stack}
use tflive.Service.State.{
  stack_template_not_runnable, actors_not_labelled, not_encoded, run_not_approvable, not_found,
  stack_template_plan_stale, run_not_discardable, failure, Served, passed, stored, accepted,
  Deployment, Arrival, ServiceStore, SecurityEvent, approval_granted, TemplateRevision, is_active,
}
use tflive.Service.Configs.{desired_config, plan_state, plan_matches}
use tflive.Service.Commands.{
  StartTemplateRunCommand, ApproveRunCommand, DiscardRunCommand, is_set,
  validate_start_template_run_command, validate_approve_run_command, validate_discard_run_command,
}
use tflive.Service.Lookups.{
  failed, audited, failed_access, operable_stack_template, authorized_template_run,
  get_template_revision,
}

abbrev pub kind_start_template_run : Text
kind_start_template_run = 100

abbrev pub kind_start_template_apply : Text
kind_start_template_apply = 101

-- Auto-approve takes the access of an approval; a refusal names the stack.
unfoldable pub authorize_auto_approve :
    Deployment → Caller → Chars → Text → Bool → StackTemplate → Served (Unit {0})
authorize_auto_approve d caller actor tenant_id false s = ok tt
authorize_auto_approve d caller actor tenant_id true s =
    audited (failed_access actor tenant_id s.stack_id) (
      passed
        (authorize_stack caller (d.spell s.stack_id) relation_can_approve AccessError.forbidden))

-- The run snapshots the desired revision and config.
abbrev pub new_run :
    Deployment → Arrival → Chars → StartTemplateRunCommand → StackTemplate → TemplateRevision → Run
new_run d arrival actor command s revision = record {
  id = arrival.fresh_id;
  tenant_id = command.tenant_id;
  stack_template_id = command.stack_template_id;
  template_revision_id = s.desired_template_revision_id;
  source = record {
    source_template_id =
        if s.source_template_id == no_text
        then revision.source_template_id
        else s.source_template_id;
    selected_ref = revision.source_ref;
    resolved_commit_sha = revision.resolved_commit_sha;
    workspace_name = s.workspace_name;
    backend_type = no_text;
    backend_config_hash = no_text;
  };
  operation = command.operation;
  config_json = desired_config s;
  status = TemplateRunStatus.queued;
  trigger_actor = d.number actor;
  created_at = some arrival.now;
  completed_at = none;
  auto_approve = command.auto_approve;
  run_number = 0;
  plan_artifact_dek = none;
  cancellation = none;
  approval = none;
  plan_execution = none;
  apply_execution = none;
}

abbrev pub template_run_workflow_input : Run → TemplateRevision → WorkflowInput
template_run_workflow_input r revision = record {
  run_id = r.id;
  tenant_id = r.tenant_id;
  stack_template_id = r.stack_template_id;
  operation = r.operation;
  selected_ref = r.source.selected_ref;
  resolved_commit_sha = r.source.resolved_commit_sha;
  workspace_name = r.source.workspace_name;
  repo_owner = revision.repo_owner;
  repo_name = revision.repo_name;
  root_path = revision.root_path;
  config_json = r.config_json;
  auto_approve = r.auto_approve;
  terraform_timeout = 0;
}

abbrev pub approval_event : Chars → Text → SecurityEvent
approval_event actor tenant_id = record {
  actor_subject = actor;
  action = approval_granted;
  tenant_id = tenant_id;
  stack_id = no_text;
}

abbrev pub start_kind : Bool → Text
start_kind auto_approve =
    if auto_approve then kind_start_template_apply else kind_start_template_run

abbrev pub start_request : Deployment → Text → Text → Chars → Text → Request
start_request d kind payload actor tenant_id = record {
  kind = kind;
  payload = payload;
  actor_subject = d.number actor;
  tenant_id = tenant_id;
}

-- The transaction of a start.
unfoldable pub start_in_tx :
    Deployment → Arrival → Chars → Run → Text → ServiceStore → Served (ServiceStore × Run)
start_in_tx d arrival actor r payload store = do
  (database, run_number) ← stored (create_template_run r store.database)
  work ← accepted (
      enqueue_requests arrival.now d.specs
        (start_request d (start_kind r.auto_approve) payload actor r.tenant_id ∷ []) store.work)
  ok (
    record store {
      database = database;
      audit_events =
          if r.auto_approve
          then store.audit_events ++ approval_event actor r.tenant_id ∷ []
          else store.audit_events;
      work = work;
    },
    record r { run_number = run_number },
  )

-- What the command reads is of `seen`; its transaction comes later, on `store`.
unfoldable pub start_template_run :
    Deployment
    → Arrival
    → Caller
    → StartTemplateRunCommand
    → ServiceStore
    → ServiceStore
    → Served (ServiceStore × Run)
unfolding authorize_auto_approve start_in_tx
start_template_run d arrival caller command seen store = do
  actor ← passed (require_principal caller)
  failed (validate_start_template_run_command command)
  s ←
      operable_stack_template d caller actor command.tenant_id command.stack_template_id
        seen.database
  guard (is_active s) (failure stack_template_not_runnable)
  guard (is_set s.desired_template_revision_id) (failure stack_template_not_runnable)
  authorize_auto_approve d caller actor command.tenant_id command.auto_approve s
  revision ← get_template_revision command.tenant_id s.desired_template_revision_id seen
  guard arrival.users_answer (failure actors_not_labelled)
  let r = new_run d arrival actor command s revision
  payload ←
      failed (or_fail (d.json.encode_input (template_run_workflow_input r revision)) not_encoded)
  start_in_tx d arrival actor r payload store

-- The transaction of an approval.
unfoldable pub approve_in_tx :
    Deployment → Arrival → Chars → ApproveRunCommand → Text → ServiceStore → Served ServiceStore
approve_in_tx d arrival actor command payload store = do
  database ← stored (
      approve_template_run command.tenant_id command.run_id
        (record { approved_by = d.number actor; approved_at = arrival.now }) store.database)
  work ← accepted (
      enqueue_requests arrival.now d.specs
        (start_request d kind_start_template_apply payload actor command.tenant_id ∷ []) store.work)
  ok (record store {
    database = database;
    audit_events = store.audit_events ++ approval_event actor command.tenant_id ∷ [];
    work = work;
  })

-- `PendingPlanRunID != run.ID || PlanState() != PlanMatches`.
abbrev pub plan_current : Deployment → Run → StackTemplate → Bool
plan_current d r s = s.pending_plan_run_id == r.id && plan_matches (plan_state d.json s)

unfoldable pub approve_run_command :
    Deployment → Arrival → Caller → ApproveRunCommand → ServiceStore → Served ServiceStore
unfolding approve_in_tx
approve_run_command d arrival caller command store = do
  actor ← passed (require_principal caller)
  failed (validate_approve_run_command command)
  r ←
      authorized_template_run d caller command.tenant_id command.run_id relation_can_approve
        AccessError.forbidden store.database
  guard (same_status r.status TemplateRunStatus.waiting_approval) (failure run_not_approvable)
  s ← failed (
      or_fail
        (find? (is_stack_template command.tenant_id r.stack_template_id)
          store.database.stack_templates)
        not_found)
  guard (plan_current d r s) (failure stack_template_plan_stale)
  revision ← get_template_revision command.tenant_id r.template_revision_id store
  payload ←
      failed (or_fail (d.json.encode_input (template_run_workflow_input r revision)) not_encoded)
  approve_in_tx d arrival actor command payload store

unfoldable pub discard_run_command :
    Deployment → Arrival → Caller → DiscardRunCommand → ServiceStore → Served ServiceStore
discard_run_command d arrival caller command store = do
  actor ← passed (require_principal caller)
  failed (validate_discard_run_command command)
  authorized_template_run d caller command.tenant_id command.run_id relation_can_operate
        AccessError.forbidden store.database
      >>= (λ r. ok tt)
  let (database, discarded) =
      discard_template_run arrival.now command.tenant_id command.run_id
        (record {
          requested_by = d.number actor;
          reason = command.reason;
          requested_at = arrival.now;
        })
        store.database
  guard discarded (failure run_not_discardable)
  ok (record store { database = database })
