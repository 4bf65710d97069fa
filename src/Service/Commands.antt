-- ===== src/Service/Commands.antt =====
-- The commands on runs and desired state, and their validation, of internal/app/service.go.
use tflive.Common.{◌==◌, Bool, ◌&&◌, not}
use tflive.Common.Results.{Result, ◌>>◌, guard}
use tflive.Domain.{Text, no_text, OperationType, operation_valid, same_operation}
use tflive.Service.State.{ServiceError, invalid_command}

pub record StartTemplateRunCommand : Type 0 where
  pub tenant_id : Text
  pub stack_template_id : Text
  pub operation : OperationType
  pub auto_approve : Bool

pub record UpdateStackTemplateConfigCommand : Type 0 where
  pub tenant_id : Text
  pub stack_template_id : Text
  pub config_json : Text

pub record UpgradeStackTemplateCommand : Type 0 where
  pub tenant_id : Text
  pub stack_template_id : Text
  pub target_template_revision_id : Text
  pub config_json : Text

pub record ApproveRunCommand : Type 0 where
  pub tenant_id : Text
  pub run_id : Text

pub record DiscardRunCommand : Type 0 where
  pub tenant_id : Text
  pub run_id : Text
  pub reason : Text

abbrev pub Validated : Type 0
Validated = Result ServiceError (Unit {0})

abbrev pub is_set : Text → Bool
is_set t = not (t == no_text)

unfoldable pub validate_start_template_run_command : StartTemplateRunCommand → Validated
validate_start_template_run_command command = do
  guard (is_set command.tenant_id) invalid_command
  guard (is_set command.stack_template_id) invalid_command
  guard (operation_valid command.operation) invalid_command
  guard (not (command.auto_approve && not (same_operation command.operation OperationType.apply)))
      invalid_command

unfoldable pub validate_update_stack_template_config_command :
    UpdateStackTemplateConfigCommand → Validated
validate_update_stack_template_config_command command = do
  guard (is_set command.tenant_id) invalid_command
  guard (is_set command.stack_template_id) invalid_command
  guard (is_set command.config_json) invalid_command

unfoldable pub validate_upgrade_stack_template_command : UpgradeStackTemplateCommand → Validated
validate_upgrade_stack_template_command command = do
  guard (is_set command.tenant_id) invalid_command
  guard (is_set command.stack_template_id) invalid_command
  guard (is_set command.target_template_revision_id) invalid_command

unfoldable pub validate_approve_run_command : ApproveRunCommand → Validated
validate_approve_run_command command = do
  guard (is_set command.tenant_id) invalid_command
  guard (is_set command.run_id) invalid_command

unfoldable pub validate_discard_run_command : DiscardRunCommand → Validated
validate_discard_run_command command = do
  guard (is_set command.tenant_id) invalid_command
  guard (is_set command.run_id) invalid_command
