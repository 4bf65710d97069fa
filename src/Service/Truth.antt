-- ===== src/Service/Truth.antt =====
-- What each command of the service keeps of the run store.
use tflive.Common.{ℕ, not, ◌≡◌, refl, ap, List, find?, All, All-update_where, subst}
use tflive.Common.Results.{ok-eq-ok, ok, ◌>>=◌, or_fail, guard, >>=-eq-ok}
use tflive.Domain.{Text}
use tflive.RunStore.Rows.{Run, StackTemplate, Database, Discard, is_stack_template}
use tflive.RunStore.Plans.{discard_template_run}
use tflive.RunStore.Operations.{
  Operation, FromWorkflow, perform, committed, committed_with, creates, approves, discards,
}
use tflive.RunStore.History.{IsConsistent, perform-IsConsistent}
use tflive.RunStore.Snapshots.{Recorded}
use tflive.RunStore.Snapshots.Operations.{perform-Recorded}
use tflive.Authorization.Relations.{relation_can_operate}
use tflive.Access.Requests.{AccessError, Caller, require_principal}
use tflive.Service.State.{
  failure, passed, Deployment, Arrival, ServiceStore, is_active, is_active_revision, not_found,
  template_not_installable, stack_template_upgrade_invalid, stack_template_config_invalid,
  run_not_discardable,
}
use tflive.Service.Configs.{validate_template_config}
use tflive.Service.Commands.{
  StartTemplateRunCommand, ApproveRunCommand, DiscardRunCommand, UpdateStackTemplateConfigCommand,
  UpgradeStackTemplateCommand, is_set, validate_update_stack_template_config_command,
  validate_upgrade_stack_template_command, validate_discard_run_command,
}
use tflive.Service.Lookups.{
  failed, operable_stack_template, authorized_template_run, get_template_revision,
  get_template_revision_variables, require_no_run_in_flight,
}
use tflive.Service.Runs.{start_template_run, approve_run_command, discard_run_command, new_run}
use tflive.Service.Desired.{
  with_config, with_revision, store_change, source_mismatch, upgrade_config,
  update_stack_template_config, upgrade_stack_template,
}
use tflive.Service.Effects.{start_template_run-Started}
use tflive.Service.Consents.{approve_run_command-Approved}

-- A run store whose snapshots are those of its runs.
pub record IsTrue (db : Database) : Type 0 where
  pub consistent : IsConsistent db
  pub recorded : All (Recorded db.runs) db.stack_templates

pub perform-IsTrue :
    (now : ℕ) (op : Operation) (db db' : Database)
    → FromWorkflow op
    → perform now op db ≡ db'
    → IsTrue db
    → IsTrue db'
perform-IsTrue now op db db' w e h = subst IsTrue e (record {
  consistent = perform-IsConsistent now op db w h.consistent;
  recorded = perform-Recorded now op db w h.consistent h.recorded;
})

store_change-IsTrue :
    (tenant_id id : Text) (change : StackTemplate → StackTemplate) (store : ServiceStore)
    {after : ServiceStore} {s : StackTemplate}
    → ((runs : List Run) (x : StackTemplate) → Recorded runs x → Recorded runs (change x))
    → store_change tenant_id id change store ≡ ok (after, s)
    → IsTrue store.database
    → IsTrue after.database
unfolding store_change
store_change-IsTrue tenant_id id change store keeps e h =
    let runs = store.database.runs in
    let ss = store.database.stack_templates in
    let (x, f, e1) =
      >>=-eq-ok (failed (or_fail (find? (is_stack_template tenant_id id) ss) not_found)) _ e in
    subst IsTrue (ap (λ p. p.0.database) (ok-eq-ok _ refl e1)) (record {
      consistent = record {
        sound = h.consistent.sound;
        exclusive = h.consistent.exclusive;
        unique = h.consistent.unique;
      };
      recorded = All-update_where (Recorded runs) _ change ss (keeps runs) h.recorded;
    })

pub start-IsTrue :
    (d : Deployment) (arrival : Arrival) (caller : Caller) (command : StartTemplateRunCommand)
    (seen store : ServiceStore) {after : ServiceStore} {r : Run}
    → start_template_run d arrival caller command seen store ≡ ok (after, r)
    → IsTrue store.database
    → IsTrue after.database
unfolding perform
start-IsTrue d arrival caller command seen store {after} {r} e h =
    let s = start_template_run-Started d arrival caller command seen store e in
    perform-IsTrue arrival.now
      (creates (new_run d arrival s.actor command s.stack_template s.revision)) store.database
      after.database tt (ap (committed_with store.database) s.created) h

pub approve-IsTrue :
    (d : Deployment) (arrival : Arrival) (caller : Caller) (command : ApproveRunCommand)
    (store : ServiceStore) {after : ServiceStore}
    → approve_run_command d arrival caller command store ≡ ok after
    → IsTrue store.database
    → IsTrue after.database
unfolding perform
approve-IsTrue d arrival caller command store {after} e h =
    let a = approve_run_command-Approved d arrival caller command store e in
    perform-IsTrue arrival.now
      (approves command.tenant_id command.run_id
        (record { approved_by = d.number a.actor; approved_at = arrival.now }))
      store.database after.database tt (ap (committed store.database) a.approved) h

-- A discard is an operation of the store that creates no run.
pub discard-performed :
    (d : Deployment) (arrival : Arrival) (caller : Caller) (command : DiscardRunCommand)
    (store : ServiceStore) {after : ServiceStore}
    → discard_run_command d arrival caller command store ≡ ok after
    → (discard : Discard) × (perform arrival.now
          (discards command.tenant_id command.run_id discard)
          store.database
        ≡ after.database)
unfolding perform discard_run_command
discard-performed d arrival caller command store {after} e =
    let (actor, e1, f1) = >>=-eq-ok (passed (require_principal caller)) _ e in
    let (_, e2, f2) = >>=-eq-ok (failed (validate_discard_run_command command)) _ f1 in
    let (_, e3, f3) =
      >>=-eq-ok
        (authorized_template_run d caller command.tenant_id command.run_id relation_can_operate
            AccessError.forbidden store.database
          >>= (λ r. ok tt))
        _ f2 in
    let discard : Discard = record {
      requested_by = d.number actor;
      reason = command.reason;
      requested_at = arrival.now;
    } in
    let discarded =
      (discard_template_run arrival.now command.tenant_id command.run_id discard
        store.database).1 in
    let (_, e4, f4) = >>=-eq-ok (guard discarded (failure run_not_discardable)) _ f3 in
    (discard, ap (λ p. p.database) (ok-eq-ok _ refl f4))

pub discard-IsTrue :
    (d : Deployment) (arrival : Arrival) (caller : Caller) (command : DiscardRunCommand)
    (store : ServiceStore) {after : ServiceStore}
    → discard_run_command d arrival caller command store ≡ ok after
    → IsTrue store.database
    → IsTrue after.database
discard-IsTrue d arrival caller command store {after} e h =
    let (discard, performed) = discard-performed d arrival caller command store e in
    perform-IsTrue arrival.now (discards command.tenant_id command.run_id discard) store.database
      after.database tt performed h

-- A change of the config ends in an update of the row.
pub update-stored :
    (d : Deployment) (caller : Caller) (command : UpdateStackTemplateConfigCommand)
    (seen store : ServiceStore) {after : ServiceStore} {s : StackTemplate}
    → update_stack_template_config d caller command seen store ≡ ok (after, s)
    → (config : Text) × (store_change command.tenant_id command.stack_template_id
          (with_config config)
          store
        ≡ ok (after, s))
unfolding update_stack_template_config
update-stored d caller command seen store e =
    let tenant_id = command.tenant_id in
    let id = command.stack_template_id in
    let (actor, _, f1) = >>=-eq-ok (passed (require_principal caller)) _ e in
    let (_, _, f2) =
      >>=-eq-ok (failed (validate_update_stack_template_config_command command)) _ f1 in
    let (x, _, f3) =
      >>=-eq-ok (operable_stack_template d caller actor tenant_id id seen.database) _ f2 in
    let (_, _, f4) =
      >>=-eq-ok (guard (is_active x) (failure stack_template_upgrade_invalid)) _ f3 in
    let (_, _, f5) = >>=-eq-ok (require_no_run_in_flight tenant_id id seen.database) _ f4 in
    let (_, _, f6) =
      >>=-eq-ok
        (guard (is_set x.desired_template_revision_id) (failure stack_template_config_invalid)) _
        f5 in
    let (variables, _, f7) =
      >>=-eq-ok (get_template_revision_variables tenant_id x.desired_template_revision_id seen) _
        f6 in
    let (config, _, f8) =
      >>=-eq-ok (failed (validate_template_config d.json command.config_json variables)) _ f7 in
    (config, f8)

pub upgrade-stored :
    (d : Deployment) (caller : Caller) (command : UpgradeStackTemplateCommand)
    (seen store : ServiceStore) {after : ServiceStore} {s : StackTemplate}
    → upgrade_stack_template d caller command seen store ≡ ok (after, s)
    → (revision : Text) × (config : Text) × (store_change command.tenant_id
          command.stack_template_id
          (with_revision revision config)
          store
        ≡ ok (after, s))
unfolding upgrade_stack_template
upgrade-stored d caller command seen store e =
    let tenant_id = command.tenant_id in
    let id = command.stack_template_id in
    let revision_id = command.target_template_revision_id in
    let (actor, _, f1) = >>=-eq-ok (passed (require_principal caller)) _ e in
    let (_, _, f2) = >>=-eq-ok (failed (validate_upgrade_stack_template_command command)) _ f1 in
    let (x, _, f3) =
      >>=-eq-ok (operable_stack_template d caller actor tenant_id id seen.database) _ f2 in
    let (_, _, f4) =
      >>=-eq-ok (guard (is_active x) (failure stack_template_upgrade_invalid)) _ f3 in
    let (_, _, f5) = >>=-eq-ok (require_no_run_in_flight tenant_id id seen.database) _ f4 in
    let (target, _, f6) = >>=-eq-ok (get_template_revision tenant_id revision_id seen) _ f5 in
    let (_, _, f7) =
      >>=-eq-ok (guard (is_active_revision target.status) (failure template_not_installable)) _
        f6 in
    let (_, _, f8) =
      >>=-eq-ok (guard (not (source_mismatch x target)) (failure stack_template_upgrade_invalid)) _
        f7 in
    let (variables, _, f9) =
      >>=-eq-ok (get_template_revision_variables tenant_id revision_id seen) _ f8 in
    let (given, _, f10) = >>=-eq-ok (upgrade_config d command.config_json x variables) _ f9 in
    let (config, _, f11) =
      >>=-eq-ok (failed (validate_template_config d.json given variables)) _ f10 in
    (target.id, config, f11)

pub update-IsTrue :
    (d : Deployment) (caller : Caller) (command : UpdateStackTemplateConfigCommand)
    (seen store : ServiceStore) {after : ServiceStore} {s : StackTemplate}
    → update_stack_template_config d caller command seen store ≡ ok (after, s)
    → IsTrue store.database
    → IsTrue after.database
update-IsTrue d caller command seen store {s = s} e h =
    let (config, f) = update-stored d caller command seen store {s = s} e in
    store_change-IsTrue command.tenant_id command.stack_template_id (with_config config) store
      (λ runs y k. k) f h

pub upgrade-IsTrue :
    (d : Deployment) (caller : Caller) (command : UpgradeStackTemplateCommand)
    (seen store : ServiceStore) {after : ServiceStore} {s : StackTemplate}
    → upgrade_stack_template d caller command seen store ≡ ok (after, s)
    → IsTrue store.database
    → IsTrue after.database
upgrade-IsTrue d caller command seen store {s = s} e h =
    let (revision, config, f) = upgrade-stored d caller command seen store {s = s} e in
    store_change-IsTrue command.tenant_id command.stack_template_id (with_revision revision config)
      store (λ runs y k. k) f h
