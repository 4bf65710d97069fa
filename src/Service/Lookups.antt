-- ===== src/Service/Lookups.antt =====
-- What a command looks up before it acts: the guards of internal/app/authorization.go on stack templates
-- and runs, the reads of internal/postgres/repositories.go that they make, and requireNoRunInFlight.
use tflive.Common.{◌==◌, Bool, ◌&&◌, not, List, [], ◌∷◌, Option, find?, any, keep}
use tflive.Common.Results.{Result, ok, err, ◌>>=◌, ◌>>◌, guard, or_fail}
use tflive.Common.Chars.{Chars}
use tflive.Domain.{Text, no_text, terminal}
use tflive.RunStore.Rows.{Run, StackTemplate, Database, is_run, is_stack_template}
use tflive.Authorization.Vocabulary.{AuthError, Checked, Object, object_from_id, type_stack}
use tflive.Authorization.Relations.{Relation, relation_can_operate}
use tflive.Access.Requests.{
  AccessError, authorization_failed, Caller, require_principal_and_authorizer, authorize_stack,
}
use tflive.Service.State.{
  ServiceError, not_found, invalid_owning_stack, refused, template_run_in_flight, failure, Served,
  passed, Deployment, ServiceStore, SecurityEvent, failed_access_attempt, TemplateRevision,
  TemplateVariable,
}

abbrev pub failed {ℓ} : {A : Type ℓ} → Result ServiceError A → Served A
failed (err reason) = err (failure reason)
failed (ok value) = ok value

-- `ErrNotFound` is answered as the refusal of the caller's choice.
abbrev pub found_or {ℓ} : {A : Type ℓ} → Option A → AccessError → Served A
found_or o denied = failed (or_fail o (refused denied))

abbrev pub owning_stack : Checked Object → Served (Unit {0})
owning_stack (err AuthError.invalid_input) = err (failure invalid_owning_stack)
owning_stack (err reason) = err (failure (refused (authorization_failed reason)))
owning_stack (ok object) = ok tt

unfoldable pub authorized_stack_template :
    Deployment → Caller → Text → Text → Relation → AccessError → Database → Served StackTemplate
authorized_stack_template d caller tenant_id stack_template_id relation denied db = do
  passed (require_principal_and_authorizer caller) >>= (λ p. ok tt)
  s ← found_or (find? (is_stack_template tenant_id stack_template_id) db.stack_templates) denied
  owning_stack (object_from_id type_stack (d.spell s.stack_id))
  passed (authorize_stack caller (d.spell s.stack_id) relation denied)
  ok s

-- `auditFailedAccess`, when a repository of audit events is there and takes it.
abbrev pub failed_access : Chars → Text → Text → SecurityEvent
failed_access actor tenant_id stack_id = record {
  actor_subject = actor;
  action = failed_access_attempt;
  tenant_id = tenant_id;
  stack_id = stack_id;
}

-- A refusal is audited.
abbrev pub audited {ℓ} : {A : Type ℓ} → SecurityEvent → Served A → Served A
audited event (err f) = err (record { reason = f.reason; audited = event ∷ [] })
audited event (ok value) = ok value

unfoldable pub operable_stack_template :
    Deployment → Caller → Chars → Text → Text → Database → Served StackTemplate
unfolding authorized_stack_template
operable_stack_template d caller actor tenant_id stack_template_id db =
    audited (failed_access actor tenant_id no_text) (
      authorized_stack_template d caller tenant_id stack_template_id relation_can_operate
        AccessError.forbidden db)

unfoldable pub authorized_template_run :
    Deployment → Caller → Text → Text → Relation → AccessError → Database → Served Run
unfolding authorized_stack_template
authorized_template_run d caller tenant_id run_id relation denied db = do
  passed (require_principal_and_authorizer caller) >>= (λ p. ok tt)
  r ← found_or (find? (is_run tenant_id run_id) db.runs) denied
  authorized_stack_template d caller tenant_id r.stack_template_id relation denied db
      >>= (λ s. ok r)

abbrev pub is_revision : Text → Text → TemplateRevision → Bool
is_revision tenant_id template_revision_id v =
    v.tenant_id == tenant_id && v.id == template_revision_id

unfoldable pub get_template_revision : Text → Text → ServiceStore → Served TemplateRevision
get_template_revision tenant_id template_revision_id store = failed (
    or_fail (find? (is_revision tenant_id template_revision_id) store.template_revisions) not_found)

-- The variables of a revision that the tenant has. Their order, by name, decides nothing.
unfoldable pub get_template_revision_variables :
    Text → Text → ServiceStore → Served (List TemplateVariable)
get_template_revision_variables tenant_id template_revision_id store = do
  guard (any (is_revision tenant_id template_revision_id) store.template_revisions)
      (failure not_found)
  ok (keep (λ v. v.template_revision_id == template_revision_id) store.template_variables)

-- `ListTemplateRuns`, whose order decides nothing here.
abbrev pub runs_of : Text → Text → Run → Bool
runs_of tenant_id stack_template_id r =
    r.tenant_id == tenant_id && r.stack_template_id == stack_template_id

unfoldable pub list_template_runs : Text → Text → Database → List Run
list_template_runs tenant_id stack_template_id db =
    keep (runs_of tenant_id stack_template_id) db.runs

unfoldable pub require_no_run_in_flight : Text → Text → Database → Served (Unit {0})
unfolding list_template_runs
require_no_run_in_flight tenant_id stack_template_id db =
    guard
      (not (any (λ r. not (terminal r.status)) (list_template_runs tenant_id stack_template_id db)))
      (failure template_run_in_flight)
