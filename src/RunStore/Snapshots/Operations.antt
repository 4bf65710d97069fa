-- ===== src/RunStore/Snapshots/Operations.antt =====
-- The pending and applied snapshots under every operation of the store.
use tflive.Common.{
  ℕ, Bool, ◌≡◌, refl, arith, inl, inr, Option, some, find?, find?_unique, All, Option-cases, subst,
}
use tflive.Common.Results.{ok, err, or_fail, or_fail-eq-ok, guard, >>=-eq-ok}
use tflive.Domain.{
  Text, PlanOutcome, TemplateRunStep, TemplateRunStatus, same_operation, same_status, step_valid,
}
use tflive.RunStore.Rows.{
  M, not_recorded, not_found, unknown_event, wrong_operation, unknown_step, not_approvable, Run,
  Approval, Discard, StackTemplate, Database, is_run,
}
use tflive.RunStore.Lifecycle.Rows.{event_counts-Follows}
use tflive.RunStore.Status.{
  StatusInput, release_pending, settle_stack_templates, record_template_run_status, is_input_run,
  move_run, workflow_status_sources,
}
use tflive.RunStore.Progress.{
  EventInput, event_stack_templates, event_counts, is_event_run, template_run_event_operations,
  record_template_run_event, record_template_run_step, run_step,
}
use tflive.RunStore.Plans.{
  FinishPlanInput, is_planned_run, finish_plan_run, finish_template_plan, begin_template_apply,
  takes_claim, commit_claim, claim_run, discard_template_run, takes_discard, approve_template_run,
  takes_approval, approve_run,
}
use tflive.RunStore.Create.{
  create_template_run, create_plan_key, plan_key, fill_plan_key, takes_plan_key,
}
use tflive.RunStore.Operations.{
  Operation, FromWorkflow, perform, queued_run, committed, committed_with, creates, records_status,
  records_step, records_event, finishes_plan, begins_apply, approves, discards, creates_plan_key,
}
use tflive.RunStore.History.{IsConsistent, has_id, perform-Evolves}
use tflive.RunStore.Snapshots.{Recorded, Recorded-Kept, Stable, Recorded-Stable}
use tflive.RunStore.Snapshots.Tables.{
  settle_stack_templates-keeps, event_stack_templates-keeps, finish_plan_stack_templates-keeps,
  release_pending-keeps,
}

-- What the writes of a transaction keep, it keeps.
abbrev Writes : Database → Database → Type 1
Writes db db' =
    (P : StackTemplate → Type 0)
    → Stable db.runs P
    → All P db.stack_templates
    → All P db'.stack_templates

same-Writes : (db db' : Database) → db'.stack_templates ≡ db.stack_templates → Writes db db'
same-Writes db db' same P stable h = rw same h

-- A run that a transaction locks is the stored run of its identifier.
stored :
    (test : Run → Bool) (db : Database) (r : Run)
    → IsConsistent db
    → find? test db.runs ≡ some r
    → find? (has_id r.id) db.runs ≡ some r
stored test db r c found =
    find?_unique (has_id r.id) test db.runs (c.unique r.id) found (ground arith)

record_template_run_status-Writes :
    (now : ℕ) (input : StatusInput) (db : Database) {db' : Database}
    → record_template_run_status now input db ≡ ok db'
    → Writes db db'
unfolding record_template_run_status
record_template_run_status-Writes now input db e P stable h =
    let (sources, a, e1) =
      >>=-eq-ok (or_fail (workflow_status_sources input.status) not_recorded) _ e in
    let (r, b, e2) = >>=-eq-ok (or_fail (find? (is_input_run input) db.runs) not_found) _ e1 in
    let ((moved, ended), c, e3) =
      >>=-eq-ok (move_run now db.next_execution_id input sources r) _ e2 in
    let (settled, d, e4) = >>=-eq-ok (settle_stack_templates input ended db.stack_templates) _ e3 in
    let held = settle_stack_templates-keeps db.runs P stable input ended db.stack_templates d h in
    ground (arith, held)

record_template_run_event-Writes :
    (now : ℕ) (input : EventInput) (db : Database) {db' : Database}
    → IsConsistent db
    → record_template_run_event now input db ≡ ok db'
    → Writes db db'
unfolding record_template_run_event
record_template_run_event-Writes now input db {db'} c e P stable h =
    let (operation, a, e1) =
      >>=-eq-ok (or_fail (template_run_event_operations input.event) unknown_event) _ e in
    let (_, b, e2) =
      >>=-eq-ok (guard (same_operation input.operation operation) wrong_operation) _ e1 in
    let (r, f, e3) = >>=-eq-ok (or_fail (find? (is_event_run input) db.runs) not_found) _ e2 in
    let (_, g, e4) =
      >>=-eq-ok (guard (same_status r.status TemplateRunStatus.running) not_found) _ e3 in
    let (counted, k, e5) = >>=-eq-ok (event_counts input.summary r) _ e4 in
    let (ss, l, e6) =
      >>=-eq-ok
        (event_stack_templates now input.tenant_id input.stack_template_id input.event counted
          db.stack_templates)
        _ e5 in
    let held =
      event_stack_templates-keeps db.runs P stable now input.tenant_id input.stack_template_id
        input.event r counted db.stack_templates (stored _ db r c (or_fail-eq-ok _ _ f))
        (event_counts-Follows input.summary r k) l h in
    ground (arith, held)

finish_template_plan-Writes :
    (now : ℕ) (input : FinishPlanInput) (db : Database) {db' : Database} {outcome : PlanOutcome}
    → IsConsistent db
    → finish_template_plan now input db ≡ ok (db', outcome)
    → Writes db db'
unfolding finish_template_plan
finish_template_plan-Writes now input db {db'} c e P stable h =
    let (r, f, e1) = >>=-eq-ok (or_fail (find? (is_planned_run input) db.runs) not_found) _ e in
    let ((finished, outcome), g, e2) = >>=-eq-ok (finish_plan_run now input r) _ e1 in
    let held =
      finish_plan_stack_templates-keeps db.runs P stable now input outcome r db.stack_templates
        (stored _ db r c (or_fail-eq-ok _ _ f)) h in
    ground (arith, held)

record_template_run_step-Writes :
    (now : ℕ) (tenant_id run_id : Text) (step : TemplateRunStep) (db : Database) {db' : Database}
    → record_template_run_step now tenant_id run_id step db ≡ ok db'
    → Writes db db'
unfolding record_template_run_step
record_template_run_step-Writes now tenant_id run_id step db {db'} e =
    let (_, a, e1) = >>=-eq-ok (guard (step_valid step) unknown_step) _ e in
    let (r, f, e2) = >>=-eq-ok (or_fail (find? (is_run tenant_id run_id) db.runs) not_found) _ e1 in
    let (stepped, g, e3) = >>=-eq-ok (run_step now step r) _ e2 in same-Writes db db' (ground arith)

begin_template_apply-Writes :
    (now : ℕ) (tenant_id run_id : Text) (auto : Bool) (workflow_id : Text) (db : Database)
    {db' : Database} {claimed : Bool}
    → begin_template_apply now tenant_id run_id auto workflow_id db ≡ ok (db', claimed)
    → Writes db db'
unfolding begin_template_apply commit_claim
begin_template_apply-Writes now tenant_id run_id auto workflow_id db {db'} e =
    elim (Option-cases (find? (takes_claim tenant_id run_id auto) db.runs)) [
      | inl f ↦ same-Writes db db' (ground arith)
      | inr (r, f) ↦
          let (done, g, e1) =
            >>=-eq-ok (claim_run now db.next_execution_id workflow_id r) _
              (rw (f, begin_template_apply) at e) in
          same-Writes db db' (ground arith)
    ]

approve_template_run-Writes :
    (tenant_id run_id : Text) (approval : Approval) (db : Database) {db' : Database}
    → approve_template_run tenant_id run_id approval db ≡ ok db'
    → Writes db db'
unfolding approve_template_run
approve_template_run-Writes tenant_id run_id approval db {db'} e =
    let (r, f, e1) =
      >>=-eq-ok (or_fail (find? (takes_approval tenant_id run_id) db.runs) not_approvable) _ e in
    let (approved, g, e2) = >>=-eq-ok (approve_run approval r) _ e1 in
    same-Writes db db' (ground arith)

discard_template_run-Writes :
    (now : ℕ) (tenant_id run_id : Text) (discard : Discard) (db : Database)
    → Writes db (discard_template_run now tenant_id run_id discard db).0
unfolding discard_template_run
discard_template_run-Writes now tenant_id run_id discard db P stable h =
    let after = (discard_template_run now tenant_id run_id discard db).0.stack_templates in
    elim (Option-cases (find? (takes_discard tenant_id run_id) db.runs)) [
      | inl f ↦
          (let same : db.stack_templates ≡ after = rw (f, discard_template_run) refl in
            subst (All P) same h)
      | inr (r, f) ↦
          let same : release_pending tenant_id run_id db.stack_templates ≡ after =
            rw (f, discard_template_run) refl in
          subst (All P) same
            (release_pending-keeps db.runs P stable tenant_id run_id db.stack_templates h)
    ]

create_template_run-Writes :
    (r : Run) (db : Database) {db' : Database} {run_number : ℕ}
    → create_template_run r db ≡ ok (db', run_number)
    → Writes db db'
unfolding create_template_run
create_template_run-Writes r db {db'} e = same-Writes db db' (ground arith)

fill_plan_key-same :
    (tenant_id run_id key : Text) (db : Database)
    → (fill_plan_key tenant_id run_id key db).0.stack_templates ≡ db.stack_templates
unfolding fill_plan_key
fill_plan_key-same tenant_id run_id key db =
    elim (Option-cases (find? (takes_plan_key tenant_id run_id) db.runs)) [
      | inl f ↦ rw (f, fill_plan_key) refl
      | inr (r, f) ↦ rw (f, fill_plan_key) refl
    ]

create_plan_key-Writes :
    (tenant_id run_id key : Text) (db : Database) {db' : Database} {held : Option Text}
    → create_plan_key tenant_id run_id key db ≡ ok (db', held)
    → Writes db db'
unfolding create_plan_key
create_plan_key-Writes tenant_id run_id key db {db'} e P stable h =
    let (o, _, e1) = >>=-eq-ok (plan_key tenant_id run_id db) _ e in
    elim (Option-cases o) [
      | inr (k, q) ↦ same-Writes db db' (ground arith) P stable h
      | inl q ↦
          let same : db' ≡ (fill_plan_key tenant_id run_id key db).0 = ground arith in
          same-Writes db db' (rw same (fill_plan_key-same tenant_id run_id key db)) P stable h
    ]

committed-Writes :
    (db : Database) (m : M Database)
    → ((db' : Database) → m ≡ ok db' → Writes db db')
    → Writes db (committed db m)
committed-Writes db (ok d) h = h d refl
committed-Writes db (err x) h = λ P stable held. held

committed_with-Writes :
    {A : Type 0} (db : Database) (m : M (Database × A))
    → ((db' : Database) (a : A) → m ≡ ok (db', a) → Writes db db')
    → Writes db (committed_with db m)
committed_with-Writes db (ok (d, a)) h = h d a refl
committed_with-Writes db (err x) h = λ P stable held. held

pub perform-Writes :
    (now : ℕ) (op : Operation) (db : Database) → IsConsistent db → Writes db (perform now op db)
unfolding perform
perform-Writes now (creates r) db c =
    committed_with-Writes db _
      (λ d n. create_template_run-Writes (queued_run r) db {run_number = n})
perform-Writes now (records_status input) db c =
    committed-Writes db _ (λ d. record_template_run_status-Writes now input db)
perform-Writes now (records_step tenant_id run_id step) db c =
    committed-Writes db _ (λ d. record_template_run_step-Writes now tenant_id run_id step db)
perform-Writes now (records_event input) db c =
    committed-Writes db _ (λ d. record_template_run_event-Writes now input db c)
perform-Writes now (finishes_plan input) db c =
    committed_with-Writes db _ (λ d o. finish_template_plan-Writes now input db c)
perform-Writes now (begins_apply tenant_id run_id auto workflow_id) db c =
    committed_with-Writes db _
      (λ d b. begin_template_apply-Writes now tenant_id run_id auto workflow_id db)
perform-Writes now (approves tenant_id run_id approval) db c =
    committed-Writes db _ (λ d. approve_template_run-Writes tenant_id run_id approval db)
perform-Writes now (discards tenant_id run_id discard) db c =
    discard_template_run-Writes now tenant_id run_id discard db
perform-Writes now (creates_plan_key tenant_id run_id key) db c =
    committed_with-Writes db _ (λ d k. create_plan_key-Writes tenant_id run_id key db)

-- Every operation by the workflows and the service, which record running only for the plan phase, on
-- a consistent database keeps the pending and the applied snapshot of every stack template true:
-- each names no run, or has the revision and the config of the stored run that it names.
pub perform-Recorded :
    (now : ℕ) (op : Operation) (db : Database)
    → FromWorkflow op
    → IsConsistent db
    → All (Recorded db.runs) db.stack_templates
    → All (Recorded (perform now op db).runs) (perform now op db).stack_templates
perform-Recorded now op db w c h =
    Recorded-Kept db.runs _ _ (λ id r. perform-Evolves now op db id r w c)
      (perform-Writes now op db c (Recorded db.runs) (Recorded-Stable db.runs) h)
