-- ===== src/Service/Desired.antt =====
-- UpdateStackTemplateConfig and UpgradeStackTemplate of internal/app/service.go, with the updates of
-- internal/postgres/repositories.go that they end in. A command reads `seen`, and its update is a later statement, on
-- `store`: what other transactions did in between is in `store` only. The reads of one command are of one store.
use tflive.Common.{◌==◌, Bool, ◌&&◌, not, List, if◌then◌else◌, find?, update_where}
use tflive.Common.Results.{ok, ◌>>=◌, ◌>>◌, guard, or_fail}
use tflive.Domain.{Text, no_text}
use tflive.RunStore.Rows.{StackTemplate, is_stack_template}
use tflive.RunStore.Create.{default_json}
use tflive.Access.Requests.{Caller, require_principal}
use tflive.Service.State.{
  not_found, stack_template_upgrade_invalid, stack_template_config_invalid,
  template_not_installable, failure, Served, passed, Deployment, ServiceStore, TemplateRevision,
  TemplateVariable, is_active, is_active_revision,
}
use tflive.Service.Configs.{desired_config, validate_template_config, carry_forward_config}
use tflive.Service.Commands.{
  UpdateStackTemplateConfigCommand, UpgradeStackTemplateCommand, is_set,
  validate_update_stack_template_config_command, validate_upgrade_stack_template_command,
}
use tflive.Service.Lookups.{
  failed, operable_stack_template, get_template_revision, get_template_revision_variables,
  require_no_run_in_flight,
}

abbrev pub with_config : Text → StackTemplate → StackTemplate
with_config config_json s = record s { desired_config_json = default_json config_json }

abbrev pub with_revision : Text → Text → StackTemplate → StackTemplate
with_revision template_revision_id config_json s = record s {
  desired_template_revision_id = template_revision_id;
  desired_config_json = default_json config_json;
}

-- `update stack_templates ... where tenant_id and id`.
abbrev pub with_stack_template :
    Text → Text → (StackTemplate → StackTemplate) → ServiceStore → ServiceStore
with_stack_template tenant_id id change store = record store {
  database = record store.database {
    stack_templates =
        update_where (is_stack_template tenant_id id) change store.database.stack_templates;
  };
}

-- An update of the one row, which `returning` gives back; no row is ErrNotFound.
unfoldable pub store_change :
    Text
    → Text
    → (StackTemplate → StackTemplate)
    → ServiceStore
    → Served (ServiceStore × StackTemplate)
store_change tenant_id id change store = do
  s ←
      failed
        (or_fail (find? (is_stack_template tenant_id id) store.database.stack_templates) not_found)
  ok (with_stack_template tenant_id id change store, change s)

unfoldable pub update_stack_template_config :
    Deployment
    → Caller
    → UpdateStackTemplateConfigCommand
    → ServiceStore
    → ServiceStore
    → Served (ServiceStore × StackTemplate)
unfolding store_change
update_stack_template_config d caller command seen store = do
  actor ← passed (require_principal caller)
  failed (validate_update_stack_template_config_command command)
  s ←
      operable_stack_template d caller actor command.tenant_id command.stack_template_id
        seen.database
  guard (is_active s) (failure stack_template_upgrade_invalid)
  require_no_run_in_flight command.tenant_id command.stack_template_id seen.database
  guard (is_set s.desired_template_revision_id) (failure stack_template_config_invalid)
  variables ← get_template_revision_variables command.tenant_id s.desired_template_revision_id seen
  config_json ← failed (validate_template_config d.json command.config_json variables)
  store_change command.tenant_id command.stack_template_id (with_config config_json) store

-- Both sources are known and differ.
abbrev pub source_mismatch : StackTemplate → TemplateRevision → Bool
source_mismatch s target =
    is_set s.source_template_id
    && (is_set target.source_template_id && not (s.source_template_id == target.source_template_id))

-- An empty config carries the current one forward.
abbrev pub upgrade_config : Deployment → Text → StackTemplate → List TemplateVariable → Served Text
upgrade_config d config_json s variables =
    if config_json == no_text
    then failed (carry_forward_config d.json (desired_config s) variables)
    else ok config_json

unfoldable pub upgrade_stack_template :
    Deployment
    → Caller
    → UpgradeStackTemplateCommand
    → ServiceStore
    → ServiceStore
    → Served (ServiceStore × StackTemplate)
unfolding store_change
upgrade_stack_template d caller command seen store = do
  actor ← passed (require_principal caller)
  failed (validate_upgrade_stack_template_command command)
  s ←
      operable_stack_template d caller actor command.tenant_id command.stack_template_id
        seen.database
  guard (is_active s) (failure stack_template_upgrade_invalid)
  require_no_run_in_flight command.tenant_id command.stack_template_id seen.database
  target ← get_template_revision command.tenant_id command.target_template_revision_id seen
  guard (is_active_revision target.status) (failure template_not_installable)
  guard (not (source_mismatch s target)) (failure stack_template_upgrade_invalid)
  variables ←
      get_template_revision_variables command.tenant_id command.target_template_revision_id seen
  given ← upgrade_config d command.config_json s variables
  config_json ← failed (validate_template_config d.json given variables)
  store_change command.tenant_id command.stack_template_id (with_revision target.id config_json)
      store
