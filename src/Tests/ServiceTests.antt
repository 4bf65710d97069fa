-- ===== src/Tests/ServiceTests.antt =====
-- A run that is started, planned and approved, with the refusals between, and instances of the
-- theorems on the service's commands.
use tflive.Common.{
  ◌≡◌, ◌≢◌, refl, true, false, [], ◌∷◌, some, none, find?, any, All, if◌then◌else◌, arith, inl,
}
use tflive.Common.Results.{ok}
use tflive.Common.Chars.{contains_any}
use tflive.Domain.{Text, OperationType, operation_valid}
use tflive.RunStore.Rows.{Run, is_run, in_flight}
use tflive.RunStore.Executions.{
  insert_workflow_execution, finish_running_execution, record_plan_counts,
}
use tflive.RunStore.Status.{
  record_template_run_status, move_run, start_run, workflow_status_sources, settle_stack_templates,
}
use tflive.RunStore.Plans.{
  finish_template_plan, finish_plan_run, wait_for_approval, finish_plan_stack_templates,
  approve_template_run, approve_run,
}
use tflive.RunStore.Create.{create_template_run}
use tflive.RunStore.Operations.{perform}
use tflive.Queue.Specs.{resolve}
use tflive.Queue.Store.{enqueue_requests, enqueue_resolved}
use tflive.Authorization.Vocabulary.{
  safe_tuple_token, string_of, subject_from_oidc_sub, object_from_id, new_identifier, object_valid,
  identifier_valid,
}
use tflive.Authorization.Relations.{relation_valid}
use tflive.Authorization.Checks.{can}
use tflive.Access.Requests.{require_principal_and_authorizer, require_principal, authorize_stack}
use tflive.Service.State.{Served, ServiceStore}
use tflive.Service.Configs.{
  validate_template_config, desired_config, plan_state, matches_desired, same_json_config,
  config_allowed, carried_entries, is_declared, value_of,
}
use tflive.Service.Commands.{
  validate_start_template_run_command, validate_approve_run_command,
  validate_update_stack_template_config_command,
}
use tflive.Service.Lookups.{
  authorized_stack_template, operable_stack_template, authorized_template_run,
  get_template_revision_variables, get_template_revision, require_no_run_in_flight,
  list_template_runs,
}
use tflive.Service.Runs.{
  authorize_auto_approve, start_in_tx, start_template_run, approve_in_tx, approve_run_command,
}
use tflive.Service.Desired.{store_change, update_stack_template_config, upgrade_stack_template}
use tflive.Service.Steps.{settled_with, serve, serve_all}
use tflive.RunStore.History.{has_id}
use tflive.Domain.{TemplateRunStatus, terminal}
use tflive.RunStore.Create.{default_json}
use tflive.Service.Runs.{plan_current}
use tflive.RunStore.Rows.{StackTemplate, is_stack_template}
use tflive.Service.Frozen.{IsFrozen}
use tflive.Service.Vows.{Bound, AllUndisturbed, serve_all-IsFrozen, plan_current-frozen}
use tflive.Service.Truth.{IsTrue}
use tflive.Service.Histories.{serve_all-IsTrue, Permitted}
use tflive.Service.Approvals.{Vouched, approve_run_command-Vouched}
use tflive.Service.Starts.{Begun, start_template_run-Begun}
use tflive.Service.Refusals.{desired_frozen}
use tflive.Service.Carrying.{config_allowed-carried_entries}
use tflive.Tests.Samples.{sample_run, sample_template}
use tflive.Tests.ServiceSamples.{
  operator, sample_json, sample_deployment, at, initial, start_command, approve_command,
  config_command, planned_history, planned_store, approval, approved_store, begin, started_store,
  run_or, declared, current, run_at, template_at,
}

initial-IsTrue : IsTrue initial.database
initial-IsTrue = record {
  consistent = record { sound = tt; exclusive = λ t s. ground arith; unique = λ i. ground arith };
  recorded = ((inl refl, inl refl), tt);
}

planned-Permitted : All (λ e. Permitted e.step) planned_history
planned-Permitted = (tt, ((λ e. refl), (tt, (tt, tt))))

serve_all-IsTrue_example : IsTrue planned_store.database
serve_all-IsTrue_example =
    serve_all-IsTrue sample_deployment planned_history initial planned-Permitted initial-IsTrue

begin_succeeds : begin ≡ ok (started_store, run_or sample_run begin)
unfolding start_template_run require_principal validate_start_template_run_command operation_valid
    operable_stack_template authorized_stack_template require_principal_and_authorizer
    object_from_id new_identifier safe_tuple_token contains_any authorize_stack can
    subject_from_oidc_sub relation_valid object_valid identifier_valid string_of desired_config
    authorize_auto_approve get_template_revision start_in_tx create_template_run enqueue_requests
    resolve enqueue_resolved
begin_succeeds = refl

start_template_run-Begun_example :
    Begun sample_deployment operator start_command initial initial started_store
      (run_or sample_run begin)
start_template_run-Begun_example =
    start_template_run-Begun sample_deployment (at 100) operator start_command initial initial
      started_store (run_or sample_run begin) begin_succeeds

busy : any (in_flight 2 3) started_store.database.runs ≡ true
unfolding start_template_run require_principal validate_start_template_run_command operation_valid
    operable_stack_template authorized_stack_template require_principal_and_authorizer
    object_from_id new_identifier safe_tuple_token contains_any authorize_stack can
    subject_from_oidc_sub relation_valid object_valid identifier_valid string_of desired_config
    authorize_auto_approve get_template_revision start_in_tx create_template_run enqueue_requests
    resolve enqueue_resolved
busy = refl

-- A change of the config that looked for runs before one began, and is saved after.
abbrev moved_under : Served (ServiceStore × StackTemplate)
moved_under =
    update_stack_template_config sample_deployment operator config_command
      (record initial {
        template_variables = record { template_revision_id = 4; name = 61; required = false } ∷ [];
      })
      started_store

moved_under_a_run :
    ((run_at (settled_with started_store moved_under).database.runs).status
      ≡ TemplateRunStatus.queued)
    × ((run_at (settled_with started_store moved_under).database.runs).config_json ≡ 1)
    × ((template_at (settled_with started_store moved_under).database.stack_templates
          ).desired_config_json
        ≡ 60)
unfolding start_template_run require_principal validate_start_template_run_command operation_valid
    operable_stack_template authorized_stack_template require_principal_and_authorizer
    object_from_id new_identifier safe_tuple_token contains_any authorize_stack can
    subject_from_oidc_sub relation_valid object_valid identifier_valid string_of desired_config
    authorize_auto_approve get_template_revision start_in_tx create_template_run enqueue_requests
    resolve enqueue_resolved update_stack_template_config
    validate_update_stack_template_config_command require_no_run_in_flight list_template_runs
    get_template_revision_variables validate_template_config config_allowed store_change
moved_under_a_run = (refl, refl, refl)

config_allowed-carried_entries_example :
    (config_allowed sample_json (declared ∷ []) (carried_entries (declared ∷ []) current) ≡ true)
    × ((name : Text)
        → value_of name (carried_entries (declared ∷ []) current)
          ≡ (if is_declared (declared ∷ []) name then value_of name current else none))
config_allowed-carried_entries_example =
    config_allowed-carried_entries sample_json (declared ∷ []) current refl

approval_succeeds : approval ≡ ok approved_store
unfolding serve_all serve start_template_run require_principal validate_start_template_run_command
    operation_valid operable_stack_template authorized_stack_template
    require_principal_and_authorizer object_from_id new_identifier safe_tuple_token contains_any
    authorize_stack can subject_from_oidc_sub relation_valid object_valid identifier_valid string_of
    desired_config authorize_auto_approve get_template_revision start_in_tx create_template_run
    enqueue_requests resolve enqueue_resolved perform record_template_run_status
    workflow_status_sources move_run start_run insert_workflow_execution settle_stack_templates
    update_stack_template_config validate_update_stack_template_config_command
    require_no_run_in_flight list_template_runs finish_template_plan finish_plan_run
    wait_for_approval record_plan_counts finish_running_execution finish_plan_stack_templates
    approve_run_command validate_approve_run_command authorized_template_run plan_state
    matches_desired same_json_config approve_in_tx approve_template_run approve_run
approval_succeeds = refl

approve_run_command-Vouched_example :
    (r : Run) × (find? (is_run 2 11) planned_store.database.runs ≡ some r)
    × Vouched sample_deployment operator planned_store r
approve_run_command-Vouched_example =
    approve_run_command-Vouched sample_deployment (at 104) operator approve_command planned_store
      approved_store serve_all-IsTrue_example approval_succeeds

desired_frozen_example :
    (start_template_run sample_deployment (at 101) operator start_command initial started_store
      ≢ ok (initial, sample_run))
    × (update_stack_template_config sample_deployment operator config_command started_store initial
        ≢ ok (initial, sample_template))
    × (upgrade_stack_template sample_deployment operator
          (record {
            tenant_id = 2;
            stack_template_id = 3;
            target_template_revision_id = 4;
            config_json = 60;
          })
          started_store
          initial
        ≢ ok (initial, sample_template))
desired_frozen_example =
    desired_frozen sample_deployment (at 101) operator 2 3 OperationType.apply false 60 4
      started_store initial (initial, sample_run) (initial, sample_template) busy

abbrev planned_run : Run
planned_run = run_at planned_store.database.runs

abbrev planned_template : StackTemplate
planned_template = template_at planned_store.database.stack_templates

initial-IsFrozen : IsFrozen initial.database
unfolding desired_config
initial-IsFrozen = record { desired = λ t i. (4, 1); agrees = ((refl, refl), tt); current = tt }

planned-Bound : All (λ e. Bound e.step) planned_history
planned-Bound = (tt, ((λ e. refl, tt), (tt, ((tt, tt), tt))))

planned-AllUndisturbed : AllUndisturbed sample_deployment planned_history initial
planned-AllUndisturbed = (refl, (tt, (λ in_flight_now. busy, (tt, tt))))

serve_all-IsFrozen_example : IsFrozen planned_store.database
serve_all-IsFrozen_example =
    serve_all-IsFrozen sample_deployment planned_history initial planned-Bound
      planned-AllUndisturbed initial-IsTrue initial-IsFrozen

planned_parts :
    (find? (has_id planned_run.id) planned_store.database.runs ≡ some planned_run)
    × (find?
          (is_stack_template planned_run.tenant_id planned_run.stack_template_id)
          planned_store.database.stack_templates
        ≡ some planned_template)
    × (terminal planned_run.status ≡ false)
    × (planned_run.id ≡ 11)
    × (planned_template.pending_plan_run_id ≡ planned_run.id)
    × (sample_deployment.json.parse (default_json planned_run.config_json) ≡ some 1)
unfolding serve_all serve start_template_run require_principal validate_start_template_run_command
    operation_valid operable_stack_template authorized_stack_template
    require_principal_and_authorizer object_from_id new_identifier safe_tuple_token contains_any
    authorize_stack can subject_from_oidc_sub relation_valid object_valid identifier_valid string_of
    desired_config authorize_auto_approve get_template_revision start_in_tx create_template_run
    enqueue_requests resolve enqueue_resolved perform record_template_run_status
    workflow_status_sources move_run start_run insert_workflow_execution settle_stack_templates
    update_stack_template_config validate_update_stack_template_config_command
    require_no_run_in_flight list_template_runs finish_template_plan finish_plan_run
    wait_for_approval record_plan_counts finish_running_execution finish_plan_stack_templates
    approve_run_command validate_approve_run_command authorized_template_run plan_state
    matches_desired same_json_config approve_in_tx approve_template_run approve_run
planned_parts = (refl, refl, refl, refl, refl, refl)

planned_run_named : planned_run.id ≢ 0
planned_run_named e = ground (arith, planned_parts.3, e)

plan_current-frozen_example : plan_current sample_deployment planned_run planned_template ≡ true
plan_current-frozen_example =
    plan_current-frozen sample_deployment planned_store.database planned_run planned_template 1
      serve_all-IsTrue_example serve_all-IsFrozen_example planned_parts.0 planned_parts.1
      planned_parts.2 planned_run_named planned_parts.4 planned_parts.5
