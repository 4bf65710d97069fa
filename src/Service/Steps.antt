-- ===== src/Service/Steps.antt =====
-- The commands of the service as steps on its store: a command that succeeds commits, and one that fails
-- leaves the audit events of its attempt only.
use tflive.Common.{List, [], ◌∷◌, ◌++◌}
use tflive.Common.Results.{ok, err}
use tflive.RunStore.Operations.{Operation, perform}
use tflive.Access.Requests.{Caller}
use tflive.Service.State.{Served, Failure, Deployment, Arrival, ServiceStore}
use tflive.Service.Commands.{
  StartTemplateRunCommand, ApproveRunCommand, DiscardRunCommand, UpdateStackTemplateConfigCommand,
  UpgradeStackTemplateCommand,
}
use tflive.Service.Runs.{start_template_run, approve_run_command, discard_run_command}
use tflive.Service.Desired.{update_stack_template_config, upgrade_stack_template}

-- A command of the service, or a transaction of the control activities on the same store. A start, a change of config
-- and an upgrade carry the store that they read, which other transactions may have changed before they write.
pub data Step : Type 0 where
  starts_run : StartTemplateRunCommand → ServiceStore → Step
  approves_run : ApproveRunCommand → Step
  discards_run : DiscardRunCommand → Step
  updates_config : UpdateStackTemplateConfigCommand → ServiceStore → Step
  upgrades : UpgradeStackTemplateCommand → ServiceStore → Step
  controls : Operation → Step

abbrev refusal : Failure → ServiceStore → ServiceStore
refusal f store = record store { audit_events = store.audit_events ++ f.audited }

abbrev pub settled : ServiceStore → Served ServiceStore → ServiceStore
settled store (err f) = refusal f store
settled store (ok after) = after

abbrev pub settled_with : {A : Type 0} → ServiceStore → Served (ServiceStore × A) → ServiceStore
settled_with store (err f) = refusal f store
settled_with store (ok after) = after.0

unfoldable pub serve : Deployment → Arrival → Caller → Step → ServiceStore → ServiceStore
serve d arrival caller (starts_run command seen) store =
    settled_with store (start_template_run d arrival caller command seen store)
serve d arrival caller (approves_run command) store =
    settled store (approve_run_command d arrival caller command store)
serve d arrival caller (discards_run command) store =
    settled store (discard_run_command d arrival caller command store)
serve d arrival caller (updates_config command seen) store =
    settled_with store (update_stack_template_config d caller command seen store)
serve d arrival caller (upgrades command seen) store =
    settled_with store (upgrade_stack_template d caller command seen store)
serve d arrival caller (controls op) store = record store {
  database = perform arrival.now op store.database;
}

-- A history: each step with its arrival and caller.
pub record Event : Type 0 where
  pub arrival : Arrival
  pub caller : Caller
  pub step : Step

unfoldable pub serve_all : Deployment → List Event → ServiceStore → ServiceStore
serve_all d [] store = store
serve_all d (e ∷ events) store = serve_all d events (serve d e.arrival e.caller e.step store)
