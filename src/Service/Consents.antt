-- ===== src/Service/Consents.antt =====
-- What an approval of the service that succeeds went through.
use tflive.Common.{true, ◌≡◌, refl, sym, ap, ◌∙◌, [], ◌∷◌, ◌++◌, some, find?}
use tflive.Common.Results.{ok-eq-ok, ok, or_fail, or_fail-eq-ok, guard, >>=-eq-ok}
use tflive.Common.Chars.{Chars}
use tflive.Domain.{Text, TemplateRunStatus, same_status}
use tflive.RunStore.Rows.{Run, StackTemplate, is_stack_template}
use tflive.RunStore.Plans.{approve_template_run}
use tflive.Queue.Store.{enqueue_requests}
use tflive.Authorization.Relations.{relation_can_approve}
use tflive.Access.Requests.{AccessError, Caller, require_principal}
use tflive.Service.State.{
  failure, passed, stored, accepted, Deployment, Arrival, ServiceStore, TemplateRevision, not_found,
  not_encoded, stack_template_plan_stale, run_not_approvable,
}
use tflive.Service.Commands.{ApproveRunCommand, validate_approve_run_command}
use tflive.Service.Lookups.{failed, authorized_template_run, get_template_revision}
use tflive.Service.Runs.{
  template_run_workflow_input, start_request, kind_start_template_apply, plan_current,
  approval_event, approve_in_tx, approve_run_command,
}
use tflive.Service.Effects.{passed-eq-ok, stored-eq-ok, accepted-eq-ok, failed-eq-ok, guard-eq-ok}

-- What went right in an approval that succeeded.
pub record Approved (d : Deployment) (arrival : Arrival) (caller : Caller)
    (command : ApproveRunCommand) (store after : ServiceStore) : Type 0 where
  pub actor : Chars
  pub run : Run
  pub stack_template : StackTemplate
  pub revision : TemplateRevision
  pub payload : Text
  pub known : require_principal caller ≡ ok actor
  pub authorized :
      authorized_template_run d caller command.tenant_id command.run_id relation_can_approve
        AccessError.forbidden store.database
      ≡ ok run
  pub waiting : same_status run.status TemplateRunStatus.waiting_approval ≡ true
  pub found :
      find?
        (is_stack_template command.tenant_id run.stack_template_id)
        store.database.stack_templates
      ≡ some stack_template
  pub current : plan_current d run stack_template ≡ true
  pub encoded : d.json.encode_input (template_run_workflow_input run revision) ≡ some payload
  pub approved :
      approve_template_run command.tenant_id command.run_id
        (record { approved_by = d.number actor; approved_at = arrival.now })
        store.database
      ≡ ok after.database
  pub queued :
      enqueue_requests arrival.now d.specs
        (start_request d kind_start_template_apply payload actor command.tenant_id ∷ [])
        store.work
      ≡ ok after.work
  pub audited :
      after.audit_events ≡ store.audit_events ++ approval_event actor command.tenant_id ∷ []

approve_in_tx-eq-ok :
    (d : Deployment) (arrival : Arrival) (actor : Chars) (command : ApproveRunCommand)
    (payload : Text) (store : ServiceStore) {after : ServiceStore}
    → approve_in_tx d arrival actor command payload store ≡ ok after
    → (approve_template_run command.tenant_id command.run_id
          (record { approved_by = d.number actor; approved_at = arrival.now })
          store.database
        ≡ ok after.database)
      × (enqueue_requests arrival.now d.specs
            (start_request d kind_start_template_apply payload actor command.tenant_id ∷ [])
            store.work
          ≡ ok after.work)
      × (after.audit_events ≡ store.audit_events ++ approval_event actor command.tenant_id ∷ [])
unfolding approve_in_tx
approve_in_tx-eq-ok d arrival actor command payload store {after} e =
    let request = start_request d kind_start_template_apply payload actor command.tenant_id in
    let (database, e1, f1) =
      >>=-eq-ok
        (stored (
          approve_template_run command.tenant_id command.run_id
            (record { approved_by = d.number actor; approved_at = arrival.now }) store.database))
        _ e in
    let (work, e2, f2) =
      >>=-eq-ok (accepted (enqueue_requests arrival.now d.specs (request ∷ []) store.work)) _ f1 in
    let same = ok-eq-ok _ refl f2 in
    (
      stored-eq-ok _ e1 ∙ ap (λ p. ok p.database) same,
      accepted-eq-ok _ e2 ∙ ap (λ p. ok p.work) same,
      sym (ap (λ p. p.audit_events) same),
    )

pub approve_run_command-Approved :
    (d : Deployment) (arrival : Arrival) (caller : Caller) (command : ApproveRunCommand)
    (store : ServiceStore) {after : ServiceStore}
    → approve_run_command d arrival caller command store ≡ ok after
    → Approved d arrival caller command store after
unfolding approve_run_command
approve_run_command-Approved d arrival caller command store {after} e =
    let (actor, e1, f1) = >>=-eq-ok (passed (require_principal caller)) _ e in
    let (_, e2, f2) = >>=-eq-ok (failed (validate_approve_run_command command)) _ f1 in
    let (r, e3, f3) =
      >>=-eq-ok
        (authorized_template_run d caller command.tenant_id command.run_id relation_can_approve
          AccessError.forbidden store.database)
        _ f2 in
    let (_, e4, f4) =
      >>=-eq-ok
        (guard (same_status r.status TemplateRunStatus.waiting_approval)
          (failure run_not_approvable))
        _ f3 in
    let (s, e5, f5) =
      >>=-eq-ok
        (failed (
          or_fail
            (find? (is_stack_template command.tenant_id r.stack_template_id)
              store.database.stack_templates)
            not_found))
        _ f4 in
    let (_, e6, f6) =
      >>=-eq-ok (guard (plan_current d r s) (failure stack_template_plan_stale)) _ f5 in
    let (revision, e7, f7) =
      >>=-eq-ok (get_template_revision command.tenant_id r.template_revision_id store) _ f6 in
    let (payload, e8, f8) =
      >>=-eq-ok
        (failed
          (or_fail (d.json.encode_input (template_run_workflow_input r revision)) not_encoded))
        _ f7 in
    let (approved, queued, audited) =
      approve_in_tx-eq-ok d arrival actor command payload store f8 in
    record {
      actor = actor;
      run = r;
      stack_template = s;
      revision = revision;
      payload = payload;
      known = passed-eq-ok (require_principal caller) e1;
      authorized = e3;
      waiting = guard-eq-ok _ _ e4;
      found = or_fail-eq-ok _ _ (failed-eq-ok _ e5);
      current = guard-eq-ok _ _ e6;
      encoded = or_fail-eq-ok _ _ (failed-eq-ok _ e8);
      approved = approved;
      queued = queued;
      audited = audited;
    }
