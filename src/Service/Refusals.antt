-- ===== src/Service/Refusals.antt =====
-- What the service refuses while a run of a stack template is in flight.
use tflive.Common.{
  ℕ, ◌==◌, Bool, true, false, ◌||◌, not, ◌≡◌, ◌≢◌, refl, sym, ◌∙◌, arith, List, [], ◌∷◌, any, keep,
}
use mathlib.Core.Bool.{false≢true}
use tflive.Common.Results.{ok, guard, >>=-eq-ok}
use tflive.Domain.{Text, OperationType, terminal}
use tflive.RunStore.Rows.{Run, StackTemplate, Database, in_flight, unique_violation, run_in_flight}
use tflive.RunStore.Create.{create_template_run}
use tflive.Access.Requests.{Caller, require_principal}
use tflive.Service.State.{
  failure, stack_template_upgrade_invalid, passed, Deployment, Arrival, ServiceStore, is_active,
}
use tflive.Service.Commands.{
  StartTemplateRunCommand, UpdateStackTemplateConfigCommand, UpgradeStackTemplateCommand,
  validate_update_stack_template_config_command, validate_upgrade_stack_template_command,
}
use tflive.Service.Lookups.{
  failed, runs_of, list_template_runs, require_no_run_in_flight, operable_stack_template,
}
use tflive.Service.Runs.{start_template_run}
use tflive.Service.Desired.{update_stack_template_config, upgrade_stack_template}
use tflive.Service.Effects.{start_template_run-Started}

-- The listed runs that are not over are those in flight.
unfinished-in_flight :
    (tenant_id id : Text) (runs : List Run)
    → any (λ r. not (terminal r.status)) (keep (runs_of tenant_id id) runs)
      ≡ any (in_flight tenant_id id) runs
unfinished-in_flight tenant_id id [] = refl
unfinished-in_flight tenant_id id (r ∷ runs) =
    ground (arith, unfinished-in_flight tenant_id id runs)

require_no_run_in_flight-none :
    (tenant_id id : Text) (db : Database)
    → require_no_run_in_flight tenant_id id db ≡ ok tt
    → any (in_flight tenant_id id) db.runs ≡ false
unfolding require_no_run_in_flight list_template_runs
require_no_run_in_flight-none tenant_id id db e =
    ground (arith, unfinished-in_flight tenant_id id db.runs)

pub update-none_in_flight :
    (d : Deployment) (caller : Caller) (command : UpdateStackTemplateConfigCommand)
    (seen store : ServiceStore) {result : ServiceStore × StackTemplate}
    → update_stack_template_config d caller command seen store ≡ ok result
    → any (in_flight command.tenant_id command.stack_template_id) seen.database.runs ≡ false
unfolding update_stack_template_config
update-none_in_flight d caller command seen store e =
    let tenant_id = command.tenant_id in
    let id = command.stack_template_id in
    let (actor, _, f1) = >>=-eq-ok (passed (require_principal caller)) _ e in
    let (_, _, f2) =
      >>=-eq-ok (failed (validate_update_stack_template_config_command command)) _ f1 in
    let (x, _, f3) =
      >>=-eq-ok (operable_stack_template d caller actor tenant_id id seen.database) _ f2 in
    let (_, _, f4) =
      >>=-eq-ok (guard (is_active x) (failure stack_template_upgrade_invalid)) _ f3 in
    let (_, free, f5) = >>=-eq-ok (require_no_run_in_flight tenant_id id seen.database) _ f4 in
    require_no_run_in_flight-none tenant_id id seen.database free

pub upgrade-none_in_flight :
    (d : Deployment) (caller : Caller) (command : UpgradeStackTemplateCommand)
    (seen store : ServiceStore) {result : ServiceStore × StackTemplate}
    → upgrade_stack_template d caller command seen store ≡ ok result
    → any (in_flight command.tenant_id command.stack_template_id) seen.database.runs ≡ false
unfolding upgrade_stack_template
upgrade-none_in_flight d caller command seen store e =
    let tenant_id = command.tenant_id in
    let id = command.stack_template_id in
    let (actor, _, f1) = >>=-eq-ok (passed (require_principal caller)) _ e in
    let (_, _, f2) = >>=-eq-ok (failed (validate_upgrade_stack_template_command command)) _ f1 in
    let (x, _, f3) =
      >>=-eq-ok (operable_stack_template d caller actor tenant_id id seen.database) _ f2 in
    let (_, _, f4) =
      >>=-eq-ok (guard (is_active x) (failure stack_template_upgrade_invalid)) _ f3 in
    let (_, free, f5) = >>=-eq-ok (require_no_run_in_flight tenant_id id seen.database) _ f4 in
    require_no_run_in_flight-none tenant_id id seen.database free

pub create_template_run-none_in_flight :
    (r : Run) (db : Database) {result : Database × ℕ}
    → create_template_run r db ≡ ok result
    → terminal r.status ≡ false
    → any (in_flight r.tenant_id r.stack_template_id) db.runs ≡ false
unfolding create_template_run
create_template_run-none_in_flight r db e h =
    let fresh = not (any (λ x. x.id == r.id) db.runs) in
    let alone =
      terminal r.status || not (any (in_flight r.tenant_id r.stack_template_id) db.runs) in
    let (_, _, e1) = >>=-eq-ok (guard fresh unique_violation) _ e in
    let (_, g, e2) = >>=-eq-ok (guard alone run_in_flight) _ e1 in ground (arith, g, h)

start-none_in_flight :
    (d : Deployment) (arrival : Arrival) (caller : Caller) (command : StartTemplateRunCommand)
    (seen store : ServiceStore) {after : ServiceStore} {r : Run}
    → start_template_run d arrival caller command seen store ≡ ok (after, r)
    → any (in_flight command.tenant_id command.stack_template_id) store.database.runs ≡ false
start-none_in_flight d arrival caller command seen store e =
    let x = start_template_run-Started d arrival caller command seen store e in
    create_template_run-none_in_flight _ store.database x.created refl

free-busy : {b : Bool} → b ≡ false → b ≡ true → ⊥
free-busy free busy = false≢true (sym free ∙ busy)

-- While a run of a stack template is in flight, no caller can start another run of the template, save a
-- config for it or upgrade it, whatever else the command asks: a start is refused on the store that its
-- transaction finds, whatever it read before, and a change of desired state on the store that it reads,
-- whatever store it is to write to.
pub desired_frozen :
    (d : Deployment) (arrival : Arrival) (caller : Caller) (tenant_id id : Text)
    (operation : OperationType) (auto_approve : Bool) (config_json target : Text)
    (store other : ServiceStore) (begun : ServiceStore × Run)
    (changed : ServiceStore × StackTemplate)
    → any (in_flight tenant_id id) store.database.runs ≡ true
    → (start_template_run d arrival caller
          (record {
            tenant_id = tenant_id;
            stack_template_id = id;
            operation = operation;
            auto_approve = auto_approve;
          })
          other
          store
        ≢ ok begun)
      × (update_stack_template_config d caller
            (record { tenant_id = tenant_id; stack_template_id = id; config_json = config_json })
            store
            other
          ≢ ok changed)
      × (upgrade_stack_template d caller
            (record {
              tenant_id = tenant_id;
              stack_template_id = id;
              target_template_revision_id = target;
              config_json = config_json;
            })
            store
            other
          ≢ ok changed)
desired_frozen d arrival caller tenant_id id operation auto_approve config_json target store other
      begun changed busy =
    (
      λ e. free-busy (start-none_in_flight d arrival caller _ other store e) busy,
      λ e. free-busy (update-none_in_flight d caller _ store other e) busy,
      λ e. free-busy (upgrade-none_in_flight d caller _ store other e) busy,
    )
