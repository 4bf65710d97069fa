-- ===== src/RunStore/Operations.antt =====
-- Every transaction of the run store as one step on the database, and a history of them. A failed
-- transaction is rolled back. The callers are the control activities (internal/activities/control.go)
-- and the service (internal/app/service.go), which only ever creates queued runs.
use tflive.Common.{◌≡◌, ℕ, Bool, List, [], ◌∷◌, none}
use tflive.Common.Results.{ok, err}
use tflive.Domain.{Text, TemplateRunStatus, TemplateRunStep, RunPhase}
use tflive.RunStore.Rows.{M, Run, Approval, Discard, Database}
use tflive.RunStore.Status.{StatusInput, record_template_run_status}
use tflive.RunStore.Progress.{EventInput, record_template_run_step, record_template_run_event}
use tflive.RunStore.Plans.{
  FinishPlanInput, finish_template_plan, begin_template_apply, discard_template_run,
  approve_template_run,
}
use tflive.RunStore.Create.{create_template_run, create_plan_key}

pub data Operation : Type 0 where
  creates : Run → Operation
  records_status : StatusInput → Operation
  records_step : Text → Text → TemplateRunStep → Operation
  records_event : EventInput → Operation
  finishes_plan : FinishPlanInput → Operation
  begins_apply : Text → Text → Bool → Text → Operation
  approves : Text → Text → Approval → Operation
  discards : Text → Text → Discard → Operation
  creates_plan_key : Text → Text → Text → Operation

-- `Status: domain.TemplateRunQueued` of StartTemplateRun, with no completion time.
abbrev pub queued_run : Run → Run
queued_run r = record r { status = TemplateRunStatus.queued; completed_at = none }

abbrev pub committed : Database → M Database → Database
committed db (ok d) = d
committed db (err e) = db

abbrev pub committed_with : {A : Type 0} → Database → M (Database × A) → Database
committed_with db (ok p) = p.0
committed_with db (err e) = db

unfoldable pub perform : ℕ → Operation → Database → Database
perform now (creates r) db = committed_with db (create_template_run (queued_run r) db)
perform now (records_status input) db = committed db (record_template_run_status now input db)
perform now (records_step tenant_id run_id step) db =
    committed db (record_template_run_step now tenant_id run_id step db)
perform now (records_event input) db = committed db (record_template_run_event now input db)
perform now (finishes_plan input) db = committed_with db (finish_template_plan now input db)
perform now (begins_apply tenant_id run_id auto_approve workflow_id) db =
    committed_with db (begin_template_apply now tenant_id run_id auto_approve workflow_id db)
perform now (approves tenant_id run_id approval) db =
    committed db (approve_template_run tenant_id run_id approval db)
perform now (discards tenant_id run_id discard) db =
    (discard_template_run now tenant_id run_id discard db).0
perform now (creates_plan_key tenant_id run_id key) db =
    committed_with db (create_plan_key tenant_id run_id key db)

-- A history: each operation with its transaction's time.
unfoldable pub run_history : List (ℕ × Operation) → Database → Database
run_history [] db = db
run_history ((now, op) ∷ ops) db = run_history ops (perform now op db)

-- How the workflows use the store: of the two, only the plan workflow records running, and each write
-- carries its workflow's phase (internal/workflows/template_run.go).
abbrev pub FromWorkflow : Operation → Type 0
FromWorkflow (records_status input) =
    input.status ≡ TemplateRunStatus.running → input.phase ≡ RunPhase.plan
FromWorkflow _ = Unit {0}
