-- ===== src/Service/Starts.antt =====
-- What a start that succeeds leaves, and what no command does while a run is in flight.
use tflive.Common.{
  ℕ, ◌+◌, ◌==◌, Bool, true, false, ◌||◌, not, ◌≡◌, refl, sym, ap, ◌∙◌, arith, List, [], ◌∷◌, ◌++◌,
  some, find?, any, ==-refl,
}
use tflive.Common.Results.{ok-eq-ok, ok, err, guard, >>=-eq-ok}
use tflive.Common.Chars.{Chars}
use tflive.Domain.{Text, no_text, TemplateRunStatus, terminal}
use tflive.RunStore.Rows.{
  Run, StackTemplate, Database, is_stack_template, in_flight, unique_violation, run_in_flight,
}
use tflive.RunStore.Create.{create_template_run, inserted, default_json, max_run_number}
use tflive.RunStore.History.{has_id}
use tflive.Queue.Specs.{Request, Resolved, resolve}
use tflive.Queue.Intents.{Carried, enqueue_requests-Carried}
use tflive.Queue.Store.{pending_of}
use tflive.Authorization.Relations.{relation_can_operate, relation_can_approve}
use tflive.Access.Requests.{AccessError, Caller, authorize_stack}
use tflive.Service.State.{
  Served, Deployment, Arrival, ServiceStore, SecurityEvent, TemplateRevision, is_active,
}
use tflive.Service.Configs.{desired_config}
use tflive.Service.Commands.{StartTemplateRunCommand}
use tflive.Service.Lookups.{audited, failed_access, operable_stack_template}
use tflive.Service.Runs.{
  new_run, template_run_workflow_input, start_request, start_kind, authorize_auto_approve,
  start_template_run,
}
use tflive.Service.Effects.{passed-eq-ok, start_template_run-Started}
use tflive.Service.Approvals.{authorized_stack_template-eq-ok}

find?-append_last :
    {A : Type 0} (p : A → Bool) (xs : List A) (y : A)
    → any p xs ≡ false
    → p y ≡ true
    → find? p (xs ++ y ∷ []) ≡ some y
find?-append_last p [] y none_before h = ground arith
find?-append_last p (x ∷ xs) y none_before h = ground (arith, find?-append_last p xs y)

pub default_json_idempotent : (t : Text) → default_json (default_json t) ≡ default_json t
default_json_idempotent t = ground arith

create_template_run-stored :
    (r : Run) (db : Database) {db' : Database} {n : ℕ}
    → create_template_run r db ≡ ok (db', n)
    → find? (has_id r.id) db'.runs ≡ some (inserted r n)
unfolding create_template_run
create_template_run-stored r db {db'} {n} e =
    let fresh = not (any (λ x. x.id == r.id) db.runs) in
    let alone =
      terminal r.status || not (any (in_flight r.tenant_id r.stack_template_id) db.runs) in
    let (_, f, e1) = >>=-eq-ok (guard fresh unique_violation) _ e in
    let (_, g, e2) = >>=-eq-ok (guard alone run_in_flight) _ e1 in
    let same = ok-eq-ok _ refl e2 in
    let number : max_run_number r.tenant_id r.stack_template_id db.runs + 1 ≡ n =
      ap (λ p. p.1) same in
    let missing : any (has_id r.id) db.runs ≡ false = ground (arith, f) in
    ap (λ p. find? (has_id r.id) p.0.runs) (sym same)
    ∙ find?-append_last (has_id r.id) db.runs _ missing (==-refl r.id)
    ∙ ap (λ k. some (inserted r k)) number

audited-eq-ok :
    {A : Type 0} (event : SecurityEvent) (r : Served A) {v : A} → audited event r ≡ ok v → r ≡ ok v
audited-eq-ok event (err f) e = cc
audited-eq-ok event (ok v) e = ground arith

pub operable_stack_template-eq-ok :
    (d : Deployment) (caller : Caller) (actor : Chars) (tenant_id id : Text) (db : Database)
    {s : StackTemplate}
    → operable_stack_template d caller actor tenant_id id db ≡ ok s
    → (find? (is_stack_template tenant_id id) db.stack_templates ≡ some s)
      × (authorize_stack caller (d.spell s.stack_id) relation_can_operate AccessError.forbidden
          ≡ ok tt)
unfolding operable_stack_template
operable_stack_template-eq-ok d caller actor tenant_id id db e =
    authorized_stack_template-eq-ok d caller tenant_id id relation_can_operate AccessError.forbidden
      db (audited-eq-ok (failed_access actor tenant_id no_text) _ e)

pub desired_config_settled :
    (s : StackTemplate) → default_json (desired_config s) ≡ desired_config s
unfolding desired_config
desired_config_settled s = default_json_idempotent s.desired_config_json

auto_approve-eq-ok :
    (d : Deployment) (caller : Caller) (actor : Chars) (tenant_id : Text) (auto : Bool)
    (s : StackTemplate)
    → authorize_auto_approve d caller actor tenant_id auto s ≡ ok tt
    → auto ≡ true
    → authorize_stack caller (d.spell s.stack_id) relation_can_approve AccessError.forbidden ≡ ok tt
unfolding authorize_auto_approve
auto_approve-eq-ok d caller actor tenant_id false s e h = cc
auto_approve-eq-ok d caller actor tenant_id true s e h =
    passed-eq-ok _ (audited-eq-ok (failed_access actor tenant_id s.stack_id) _ e)

-- What a start leaves: the caller's authority, the stored run with its snapshot, and its intent.
pub record Begun (d : Deployment) (caller : Caller) (command : StartTemplateRunCommand)
    (seen store after : ServiceStore) (r : Run) : Type 0 where
  pub stack_template : StackTemplate
  pub belongs :
      find?
        (is_stack_template command.tenant_id command.stack_template_id)
        seen.database.stack_templates
      ≡ some stack_template
  pub active : is_active stack_template ≡ true
  pub may_operate :
      authorize_stack caller
        (d.spell stack_template.stack_id)
        relation_can_operate
        AccessError.forbidden
      ≡ ok tt
  pub may_approve :
      command.auto_approve ≡ true
      → authorize_stack caller
          (d.spell stack_template.stack_id)
          relation_can_approve
          AccessError.forbidden
        ≡ ok tt
  pub stored : Run
  pub found : find? (has_id r.id) after.database.runs ≡ some stored
  pub waits : stored.status ≡ TemplateRunStatus.queued
  pub same_revision : stored.template_revision_id ≡ stack_template.desired_template_revision_id
  pub same_config : stored.config_json ≡ desired_config stack_template
  pub same_auto_approve : stored.auto_approve ≡ command.auto_approve
  pub revision : TemplateRevision
  pub request : Request
  pub request_kind : request.kind ≡ start_kind command.auto_approve
  pub carries_run :
      d.json.encode_input (template_run_workflow_input r revision) ≡ some request.payload
  pub resolved : Resolved
  pub resolves : resolve d.specs request ≡ ok resolved
  pub pending : any (pending_of resolved.kind resolved.key) after.work.rows ≡ true
  pub carried : Carried resolved request.payload store.work after.work

-- A start that succeeds was asked by a caller whom the authorizer lets operate on the stack of a
-- stack template that is active as the start read it, and approve on it if the run is approved in advance. It leaves the run
-- stored and queued with the desired revision and config that it read of that template. Its request, to
-- apply if the run is approved in advance and to plan otherwise, has the run's encoding for its payload,
-- and the work queue is left with a pending intent under the key of the request; a pending intent under
-- that key has that payload, unless the kind is a job and one was pending before, which stays as it was.
pub start_template_run-Begun :
    (d : Deployment) (arrival : Arrival) (caller : Caller) (command : StartTemplateRunCommand)
    (seen store after : ServiceStore) (r : Run)
    → start_template_run d arrival caller command seen store ≡ ok (after, r)
    → Begun d caller command seen store after r
start_template_run-Begun d arrival caller command seen store after r e =
    let x = start_template_run-Started d arrival caller command seen store e in
    let s = x.stack_template in
    let made = new_run d arrival x.actor command s x.revision in
    let (belongs, may_operate) =
      operable_stack_template-eq-ok d caller x.actor command.tenant_id command.stack_template_id
        seen.database x.operable in
    let request =
      start_request d (start_kind command.auto_approve) x.payload x.actor command.tenant_id in
    let (resolved, resolves, pending, carried) =
      enqueue_requests-Carried arrival.now d.specs request store.work x.queued in
    record {
      stack_template = s;
      belongs = belongs;
      active = x.active;
      may_operate = may_operate;
      may_approve =
          auto_approve-eq-ok d caller x.actor command.tenant_id command.auto_approve s x.approver;
      stored = inserted made r.run_number;
      found =
          ap (λ y. find? (has_id y.id) after.database.runs) x.run
          ∙ create_template_run-stored made store.database x.created;
      waits = refl;
      same_revision = refl;
      same_config = desired_config_settled s;
      same_auto_approve = refl;
      revision = x.revision;
      request = request;
      request_kind = refl;
      carries_run = x.encoded;
      resolved = resolved;
      resolves = resolves;
      pending = pending;
      carried = carried;
    }
