-- ===== src/Tests/ServiceSamples.antt =====
-- A deployment that allows everything, and a service store with the sample stack template.
use tflive.Common.{ℕ, ◌+◌, ◌==◌, true, false, List, Option, [], ◌∷◌, some, none, if◌then◌else◌}
use tflive.Common.Results.{ok, err}
use tflive.Common.Chars.{characters}
use tflive.Domain.{Text, OperationType, TemplateRunStatus, RunPhase}
use tflive.RunStore.Rows.{Run}
use tflive.RunStore.Operations.{finishes_plan}
use tflive.Queue.Specs.{job}
use tflive.Authorization.Server.{Server, CheckAnswer}
use tflive.Access.Requests.{Caller}
use tflive.Service.State.{
  ServiceStore, Deployment, Arrival, Json, Decoded, TemplateRevisionStatus, TemplateVariable,
  Served,
}
use tflive.Service.Commands.{
  StartTemplateRunCommand, ApproveRunCommand, UpdateStackTemplateConfigCommand,
}
use tflive.Service.Runs.{start_template_run, approve_run_command}
use tflive.Service.Steps.{
  Step, starts_run, updates_config, controls, Event, serve_all, settled, settled_with,
}
use tflive.RunStore.Rows.{StackTemplate}
use tflive.Tests.Samples.{
  sample_run, sample_template, empty_database, sample_summary, status_operation,
}

-- Everything is allowed to everyone.
abbrev pub open_server : Server
open_server = record {
  check = λ key. CheckAnswer.decided true;
  batch_check = λ items. none;
  read = λ object token. none;
}

abbrev pub operator : Caller
operator = record { principal = some (characters "ann"); authorizer = some open_server }

-- Every document is the empty object, but 60, which sets the undeclared variable 61.
abbrev pub decode : Text → Decoded
decode t = Decoded.object (if t == 60 then (61, 62) ∷ [] else [])

abbrev encode : List (Text × Text) → Option Text
encode [] = some 1
encode (entry ∷ entries) = some 60

abbrev pub sample_json : Json
sample_json = record {
  parse = some;
  decode = decode;
  encode = encode;
  encode_input = λ input. some (200 + input.run_id);
  null = 3;
}

abbrev pub sample_deployment : Deployment
sample_deployment = record {
  json = sample_json;
  spell = λ t. characters "s";
  number = λ text. 20;
  specs =
      record { kind = 100; mode = job; has_key = true; key = some }
      ∷ record { kind = 101; mode = job; has_key = true; key = some }
      ∷ [];
}

abbrev pub at : ℕ → Arrival
at now = record { now = now; fresh_id = 11; users_answer = true }

abbrev pub initial : ServiceStore
initial = record {
  database = empty_database;
  template_revisions =
      record {
        id = 4;
        tenant_id = 2;
        source_template_id = 5;
        repo_owner = 12;
        repo_name = 13;
        source_ref = 6;
        resolved_commit_sha = 7;
        root_path = 14;
        status = TemplateRevisionStatus.active;
      }
      ∷ [];
  template_variables = [];
  work = record { rows = []; next_id = 1 };
  audit_events = [];
}

abbrev pub start_command : StartTemplateRunCommand
start_command = record {
  tenant_id = 2;
  stack_template_id = 3;
  operation = OperationType.apply;
  auto_approve = false;
}

abbrev pub approve_command : ApproveRunCommand
approve_command = record { tenant_id = 2; run_id = 11 }

abbrev pub config_command : UpdateStackTemplateConfigCommand
config_command = record { tenant_id = 2; stack_template_id = 3; config_json = 60 }

abbrev pub event : ℕ → Step → Event
event now step = record { arrival = at now; caller = operator; step = step }

abbrev pub begin : Served (ServiceStore × Run)
begin = start_template_run sample_deployment (at 100) operator start_command initial initial

abbrev pub started_store : ServiceStore
started_store = settled_with initial begin

-- A run is started and planned; a change of the config in between is refused.
abbrev pub planned_history : List Event
planned_history =
    event 100 (starts_run start_command initial)
    ∷ event 101 (controls (status_operation TemplateRunStatus.running RunPhase.plan))
    ∷ event 102 (updates_config config_command started_store)
    ∷ event 103 (
        controls (
          finishes_plan (record {
            tenant_id = 2;
            run_id = 11;
            stack_template_id = 3;
            operation = OperationType.apply;
            has_changes = true;
            summary = sample_summary;
          })))
    ∷ []

abbrev pub planned_store : ServiceStore
planned_store = serve_all sample_deployment planned_history initial

abbrev pub approval : Served ServiceStore
approval = approve_run_command sample_deployment (at 104) operator approve_command planned_store

abbrev pub approved_store : ServiceStore
approved_store = settled planned_store approval

abbrev pub run_or : Run → Served (ServiceStore × Run) → Run
run_or r (err f) = r
run_or r (ok (after, begun)) = begun

abbrev pub declared : TemplateVariable
declared = record { template_revision_id = 4; name = 61; required = true }

-- A current config with a variable that the target does not declare.
abbrev pub current : List (Text × Text)
current = (61, 62) ∷ (63, 64) ∷ []

abbrev pub run_at : List Run → Run
run_at [] = sample_run
run_at (r ∷ rs) = r

abbrev pub template_at : List StackTemplate → StackTemplate
template_at [] = sample_template
template_at (s ∷ ss) = s
