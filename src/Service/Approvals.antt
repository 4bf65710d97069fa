-- ===== src/Service/Approvals.antt =====
-- What an approval that succeeds vouches for.
use tflive.Common.{
  true, ◌≡◌, ◌≢◌, refl, sym, ap, ◌∙◌, arith, inl, inr, List, Option, some, none, find?, All-find?,
  find?-test, find?_unique,
}
use tflive.Common.Results.{ok-eq-ok, ok, ◌>>=◌, or_fail-eq-ok, >>=-eq-ok}
use tflive.Domain.{Text, no_text, TemplateRunStatus, same_status}
use tflive.RunStore.Rows.{Run, StackTemplate, Database, is_run, is_stack_template}
use tflive.RunStore.History.{has_id}
use tflive.RunStore.Snapshots.{Recorded, Names}
use tflive.Authorization.Relations.{Relation, relation_can_approve}
use tflive.Authorization.Vocabulary.{object_from_id, type_stack}
use tflive.Access.Requests.{AccessError, Caller, authorize_stack, require_principal_and_authorizer}
use tflive.Service.State.{Json, Deployment, Arrival, ServiceStore, passed}
use tflive.Service.Configs.{
  plan_state, plan_matches, matches_desired, same_recorded_config, same_json_config, desired_config,
}
use tflive.Service.Commands.{ApproveRunCommand}
use tflive.Service.Lookups.{
  found_or, owning_stack, authorized_stack_template, authorized_template_run,
}
use tflive.Service.Runs.{plan_current, approve_run_command}
use tflive.Service.Effects.{passed-eq-ok, failed-eq-ok}
use tflive.Service.Consents.{approve_run_command-Approved}
use tflive.Service.Truth.{IsTrue}

-- A plan that matches names a run, and its snapshot is the desired one.
plan_state-matches :
    (json : Json) (s : StackTemplate)
    → plan_matches (plan_state json s) ≡ true
    → (s.pending_plan_run_id ≢ no_text)
      × (s.pending_plan_template_revision_id ≡ s.desired_template_revision_id)
      × (same_recorded_config json s.pending_plan_config_json (desired_config s) ≡ true)
unfolding plan_state matches_desired
plan_state-matches json s h = ground arith

pub authorized_stack_template-eq-ok :
    (d : Deployment) (caller : Caller) (tenant_id id : Text) (relation : Relation)
    (denied : AccessError) (db : Database) {s : StackTemplate}
    → authorized_stack_template d caller tenant_id id relation denied db ≡ ok s
    → (find? (is_stack_template tenant_id id) db.stack_templates ≡ some s)
      × (authorize_stack caller (d.spell s.stack_id) relation denied ≡ ok tt)
unfolding authorized_stack_template
authorized_stack_template-eq-ok d caller tenant_id id relation denied db {s} e =
    let found = find? (is_stack_template tenant_id id) db.stack_templates in
    let (_, _, f1) =
      >>=-eq-ok (passed (require_principal_and_authorizer caller) >>= (λ p. ok tt)) _ e in
    let (x, g, f2) = >>=-eq-ok (found_or found denied) _ f1 in
    let (_, _, f3) =
      >>=-eq-ok (owning_stack (object_from_id type_stack (d.spell x.stack_id))) _ f2 in
    let (_, k, f4) =
      >>=-eq-ok (passed (authorize_stack caller (d.spell x.stack_id) relation denied)) _ f3 in
    let same : x ≡ s = ok-eq-ok _ refl f4 in
    (
      or_fail-eq-ok found _ (failed-eq-ok _ g) ∙ ap some same,
      ap (λ y. authorize_stack caller (d.spell y.stack_id) relation denied) (sym same)
          ∙ passed-eq-ok _ k,
    )

authorized_template_run-eq-ok :
    (d : Deployment) (caller : Caller) (tenant_id run_id : Text) (relation : Relation)
    (denied : AccessError) (db : Database) {r : Run}
    → authorized_template_run d caller tenant_id run_id relation denied db ≡ ok r
    → (find? (is_run tenant_id run_id) db.runs ≡ some r)
      × ((s : StackTemplate) × (authorized_stack_template d caller tenant_id r.stack_template_id
              relation denied db
            ≡ ok s))
unfolding authorized_template_run
authorized_template_run-eq-ok d caller tenant_id run_id relation denied db {r} e =
    let (_, _, f1) =
      >>=-eq-ok (passed (require_principal_and_authorizer caller) >>= (λ p. ok tt)) _ e in
    let (x, g, f2) = >>=-eq-ok (found_or (find? (is_run tenant_id run_id) db.runs) denied) _ f1 in
    let (s, k, f3) =
      >>=-eq-ok
        (authorized_stack_template d caller tenant_id x.stack_template_id relation denied db) _
        f2 in
    let same : x ≡ r = ok-eq-ok _ refl f3 in
    (
      or_fail-eq-ok _ _ (failed-eq-ok _ g) ∙ ap some same,
      (
        s,
        ap
              (λ y.
                authorized_stack_template d caller tenant_id y.stack_template_id relation denied db)
              (sym same)
            ∙ k,
      ),
    )

-- The snapshot of the named run is what the stack template records.
pub named :
    (runs : List Run) (id revision_id : Text) (config : Option Text) (r : Run)
    → id ≢ no_text
    → find? (has_id id) runs ≡ some r
    → Names runs id revision_id config
    → (revision_id ≡ r.template_revision_id) × (config ≡ some r.config_json)
named runs id revision_id config r some_run found (inl none_run) = absurd (some_run none_run)
named runs id revision_id config r some_run found (inr (x, again, revision, recorded)) =
    let same : x ≡ r = ground (arith, found, again) in
    (revision ∙ ap (λ y. y.template_revision_id) same, recorded ∙ ap (λ y. some y.config_json) same)

current_parts :
    (d : Deployment) (r : Run) (s : StackTemplate)
    → plan_current d r s ≡ true
    → (s.pending_plan_run_id ≡ r.id) × (plan_matches (plan_state d.json s) ≡ true)
current_parts d r s h = ground arith

is_run-tenant :
    (tenant_id run_id : Text) (r : Run) → is_run tenant_id run_id r ≡ true → r.tenant_id ≡ tenant_id
is_run-tenant tenant_id run_id r h = ground arith

some-eq-some : {A : Type 0} (o : Option A) {x y : A} → o ≡ some x → o ≡ some y → x ≡ y
some-eq-some none e f = cc
some-eq-some (some z) e f = ground arith

-- What the person who approves reviewed: the run itself, with the desired state of its template.
pub record Vouched (d : Deployment) (caller : Caller) (store : ServiceStore) (r : Run)
    : Type 0 where
  pub stack_template : StackTemplate
  pub belongs :
      find? (is_stack_template r.tenant_id r.stack_template_id) store.database.stack_templates
      ≡ some stack_template
  pub allowed :
      authorize_stack caller
        (d.spell stack_template.stack_id)
        relation_can_approve
        AccessError.forbidden
      ≡ ok tt
  pub waiting : same_status r.status TemplateRunStatus.waiting_approval ≡ true
  pub same_revision : r.template_revision_id ≡ stack_template.desired_template_revision_id
  pub same_config : same_json_config d.json r.config_json (desired_config stack_template) ≡ true

-- On a store with consistent runs, whose pending and applied snapshots are those of the runs that they
-- name, an approval that succeeds approved a run that waits for it, with the tenant and identifier of
-- the command: the authorizer let the caller approve on the stack of the run's stack template, the
-- run's own revision is the desired one of that template, and its own config is, as parsed JSON, the
-- desired one.
pub approve_run_command-Vouched :
    (d : Deployment) (arrival : Arrival) (caller : Caller) (command : ApproveRunCommand)
    (store after : ServiceStore)
    → IsTrue store.database
    → approve_run_command d arrival caller command store ≡ ok after
    → (r : Run) × (find? (is_run command.tenant_id command.run_id) store.database.runs ≡ some r)
      × Vouched d caller store r
approve_run_command-Vouched d arrival caller command store after true_store e =
    let a = approve_run_command-Approved d arrival caller command store e in
    let r = a.run in
    let s = a.stack_template in
    let (found, (x, authorized)) =
      authorized_template_run-eq-ok d caller command.tenant_id command.run_id relation_can_approve
        AccessError.forbidden store.database a.authorized in
    let (owned, allowed) =
      authorized_stack_template-eq-ok d caller command.tenant_id r.stack_template_id
        relation_can_approve AccessError.forbidden store.database authorized in
    let (same_run, matching) = current_parts d r s a.current in
    let (some_run, revision, config) = plan_state-matches d.json s matching in
    let stored : find? (has_id r.id) store.database.runs ≡ some r =
      find?_unique (has_id r.id) (is_run command.tenant_id command.run_id) store.database.runs
        (true_store.consistent.unique r.id) found (ground arith) in
    let recorded =
      All-find? (Recorded store.database.runs) _ store.database.stack_templates true_store.recorded
        a.found in
    let (same_revision, same_config) =
      named store.database.runs s.pending_plan_run_id _ _ r some_run
        (ap (λ id. find? (has_id id) store.database.runs) same_run ∙ stored) recorded.0 in
    let tenant : r.tenant_id ≡ command.tenant_id =
      is_run-tenant command.tenant_id command.run_id r (find?-test _ store.database.runs found) in
    let same_template : x ≡ s = some-eq-some _ owned a.found in
    (
      r,
      found,
      record {
        stack_template = s;
        belongs =
            ap (λ t. find? (is_stack_template t r.stack_template_id) store.database.stack_templates)
              tenant
            ∙ a.found;
        allowed =
            ap
              (λ y.
                authorize_stack caller (d.spell y.stack_id) relation_can_approve
                  AccessError.forbidden)
              (sym same_template)
            ∙ allowed;
        waiting = a.waiting;
        same_revision = sym same_revision ∙ revision;
        same_config =
            ap (λ c. same_recorded_config d.json c (desired_config s)) (sym same_config) ∙ config;
      },
    )
