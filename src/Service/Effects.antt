-- ===== src/Service/Effects.antt =====
-- What a start that succeeds went through, and the same for single calls.
use tflive.Common.{Bool, true, false, ◌≡◌, refl, sym, ap, ◌∙◌, arith, [], ◌∷◌, some}
use tflive.Common.Results.{Result, ok, err, or_fail, or_fail-eq-ok, guard, >>=-eq-ok, ok-eq-ok}
use mathlib.Core.Path.{ap₂}
use tflive.Common.Chars.{Chars}
use tflive.Domain.{Text}
use tflive.RunStore.Rows.{StoreError, Run, StackTemplate}
use tflive.RunStore.Create.{create_template_run}
use tflive.Queue.Specs.{SpecError}
use tflive.Queue.Store.{enqueue_requests}
use tflive.Access.Requests.{Answer, Caller, require_principal}
use tflive.Service.State.{
  ServiceError, failure, passed, stored, accepted, Deployment, Arrival, ServiceStore,
  TemplateRevision, is_active, not_encoded, stack_template_not_runnable, actors_not_labelled,
}
use tflive.Service.Commands.{StartTemplateRunCommand, is_set, validate_start_template_run_command}
use tflive.Service.Lookups.{failed, operable_stack_template, get_template_revision}
use tflive.Service.Runs.{
  new_run, template_run_workflow_input, start_request, start_kind, authorize_auto_approve,
  start_in_tx, start_template_run,
}

pub passed-eq-ok : {A : Type 0} (r : Answer A) {v : A} → passed r ≡ ok v → r ≡ ok v
passed-eq-ok (err x) e = cc
passed-eq-ok (ok v) e = ground arith

pub stored-eq-ok : {A : Type 0} (r : Result StoreError A) {v : A} → stored r ≡ ok v → r ≡ ok v
stored-eq-ok (err x) e = cc
stored-eq-ok (ok v) e = ground arith

pub accepted-eq-ok : {A : Type 0} (r : Result SpecError A) {v : A} → accepted r ≡ ok v → r ≡ ok v
accepted-eq-ok (err x) e = cc
accepted-eq-ok (ok v) e = ground arith

pub failed-eq-ok : {A : Type 0} (r : Result ServiceError A) {v : A} → failed r ≡ ok v → r ≡ ok v
failed-eq-ok (err x) e = cc
failed-eq-ok (ok v) e = ground arith

pub guard-eq-ok : {E : Type 0} (b : Bool) (x : E) → guard b x ≡ ok tt → b ≡ true
guard-eq-ok true x e = refl
guard-eq-ok false x e = cc

-- What went right in a start that succeeded.
pub record Started (d : Deployment) (arrival : Arrival) (caller : Caller)
    (command : StartTemplateRunCommand) (seen store after : ServiceStore) (r : Run) : Type 0 where
  pub actor : Chars
  pub stack_template : StackTemplate
  pub revision : TemplateRevision
  pub payload : Text
  pub known : require_principal caller ≡ ok actor
  pub valid : validate_start_template_run_command command ≡ ok tt
  pub operable :
      operable_stack_template d caller actor command.tenant_id command.stack_template_id
        seen.database
      ≡ ok stack_template
  pub active : is_active stack_template ≡ true
  pub approver :
      authorize_auto_approve d caller actor command.tenant_id command.auto_approve stack_template
      ≡ ok tt
  pub created :
      create_template_run (new_run d arrival actor command stack_template revision) store.database
      ≡ ok (after.database, r.run_number)
  pub run : r ≡ record (new_run d arrival actor command stack_template revision) {
    run_number = r.run_number;
  }
  pub queued :
      enqueue_requests arrival.now d.specs
        (start_request d (start_kind command.auto_approve) payload actor command.tenant_id ∷ [])
        store.work
      ≡ ok after.work
  pub encoded : d.json.encode_input (template_run_workflow_input r revision) ≡ some payload

start_in_tx-eq-ok :
    (d : Deployment) (arrival : Arrival) (actor : Chars) (r : Run) (payload : Text)
    (store : ServiceStore) {after : ServiceStore} {r' : Run}
    → start_in_tx d arrival actor r payload store ≡ ok (after, r')
    → (create_template_run r store.database ≡ ok (after.database, r'.run_number))
      × (enqueue_requests arrival.now d.specs
            (start_request d (start_kind r.auto_approve) payload actor r.tenant_id ∷ [])
            store.work
          ≡ ok after.work)
      × (r' ≡ record r { run_number = r'.run_number })
unfolding start_in_tx
start_in_tx-eq-ok d arrival actor r payload store {after} {r'} e =
    let request = start_request d (start_kind r.auto_approve) payload actor r.tenant_id in
    let ((database, run_number), e1, f1) =
      >>=-eq-ok (stored (create_template_run r store.database)) _ e in
    let (work, e2, f2) =
      >>=-eq-ok (accepted (enqueue_requests arrival.now d.specs (request ∷ []) store.work)) _ f1 in
    let same = ok-eq-ok _ refl f2 in
    let numbered : run_number ≡ r'.run_number = ap (λ p. p.1.run_number) same in
    (
      stored-eq-ok _ e1 ∙ ap ok (ap₂ (λ x y. (x, y)) (ap (λ p. p.0.database) same) numbered),
      accepted-eq-ok _ e2 ∙ ap (λ p. ok p.0.work) same,
      sym (ap (λ p. p.1) same) ∙ ap (λ n. record r { run_number = n }) numbered,
    )

pub start_template_run-Started :
    (d : Deployment) (arrival : Arrival) (caller : Caller) (command : StartTemplateRunCommand)
    (seen store : ServiceStore) {after : ServiceStore} {r : Run}
    → start_template_run d arrival caller command seen store ≡ ok (after, r)
    → Started d arrival caller command seen store after r
unfolding start_template_run
start_template_run-Started d arrival caller command seen store {after} {r} e =
    let (actor, e1, f1) = >>=-eq-ok (passed (require_principal caller)) _ e in
    let (_, e2, f2) = >>=-eq-ok (failed (validate_start_template_run_command command)) _ f1 in
    let (s, e3, f3) =
      >>=-eq-ok
        (operable_stack_template d caller actor command.tenant_id command.stack_template_id
          seen.database)
        _ f2 in
    let (_, e4, f4) = >>=-eq-ok (guard (is_active s) (failure stack_template_not_runnable)) _ f3 in
    let (_, e5, f5) =
      >>=-eq-ok
        (guard (is_set s.desired_template_revision_id) (failure stack_template_not_runnable)) _
        f4 in
    let (_, e6, f6) =
      >>=-eq-ok (authorize_auto_approve d caller actor command.tenant_id command.auto_approve s) _
        f5 in
    let (revision, e7, f7) =
      >>=-eq-ok (get_template_revision command.tenant_id s.desired_template_revision_id seen) _
        f6 in
    let (_, e8, f8) = >>=-eq-ok (guard arrival.users_answer (failure actors_not_labelled)) _ f7 in
    let made = new_run d arrival actor command s revision in
    let (payload, e9, f9) =
      >>=-eq-ok
        (failed
          (or_fail (d.json.encode_input (template_run_workflow_input made revision)) not_encoded))
        _ f8 in
    let (created, queued, run) = start_in_tx-eq-ok d arrival actor made payload store f9 in
    record {
      actor = actor;
      stack_template = s;
      revision = revision;
      payload = payload;
      known = passed-eq-ok (require_principal caller) e1;
      valid = failed-eq-ok (validate_start_template_run_command command) e2;
      operable = e3;
      active = guard-eq-ok _ _ e4;
      approver = e6;
      created = created;
      run = run;
      queued = queued;
      encoded =
          ap (λ x. d.json.encode_input (template_run_workflow_input x revision)) run
          ∙ or_fail-eq-ok _ _ (failed-eq-ok _ e9);
    }
