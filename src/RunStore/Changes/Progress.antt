-- ===== src/RunStore/Changes/Progress.antt =====
-- What the writes of the workflows do to the table of runs: statuses, steps, events and finished plans.
use tflive.Common.{ℕ, ◌≡◌, arith, inr, find?, All, All-find?}
use tflive.Common.Results.{ok, or_fail, or_fail-eq-ok, guard, >>=-eq-ok}
use tflive.Domain.{
  Text, PlanOutcome, same_operation, step_valid, TemplateRunStatus, TemplateRunStep, same_status,
}
use tflive.RunStore.Rows.{Database, is_run}
use tflive.RunStore.Status.{
  StatusInput, is_input_run, move_run, workflow_status_sources, settle_stack_templates,
  record_template_run_status,
}
use tflive.RunStore.Progress.{
  EventInput, is_event_run, run_step, event_counts, template_run_event_operations,
  event_stack_templates, record_template_run_step, record_template_run_event,
}
use tflive.RunStore.Plans.{FinishPlanInput, is_planned_run, finish_plan_run, finish_template_plan}
use tflive.RunStore.Operations.{records_status, FromWorkflow}
use tflive.RunStore.Soundness.{IsSound}
use tflive.RunStore.Soundness.Rows.{
  move_run-IsSound, run_step-IsSound, event_counts-IsSound, finish_plan_run-IsSound,
}
use tflive.RunStore.Lifecycle.Rows.{
  move_run-Follows, run_step-Follows, event_counts-Follows, finish_plan_run-Follows,
}
use tflive.RunStore.Changes.{Update}

pub record_template_run_status-Update :
    (now : ℕ) (input : StatusInput) (db : Database) {db' : Database}
    → FromWorkflow (records_status input)
    → All IsSound db.runs
    → record_template_run_status now input db ≡ ok db'
    → Update db.runs db'.runs
unfolding record_template_run_status
record_template_run_status-Update now input db w s e =
    let (sources, q, e1) = >>=-eq-ok (or_fail (workflow_status_sources input.status) _) _ e in
    let (r, f, e2) = >>=-eq-ok (or_fail (find? (is_input_run input) db.runs) _) _ e1 in
    let (m, g, e3) = >>=-eq-ok (move_run now db.next_execution_id input sources r) _ e2 in
    let (ss, h, e4) = >>=-eq-ok (settle_stack_templates input m.1 db.stack_templates) _ e3 in
    inr (
      (record {
        takes = is_input_run input;
        previous = r;
        next = m.0;
        found = or_fail-eq-ok _ _ f;
        sound =
            move_run-IsSound now _ input sources r (or_fail-eq-ok _ _ q) w
              (All-find? IsSound _ db.runs s (or_fail-eq-ok _ _ f)) g;
        follows = move_run-Follows now _ input sources r (or_fail-eq-ok _ _ q) g;
        written = ground arith;
      }))

pub record_template_run_step-Update :
    (now : ℕ) (tenant_id run_id : Text) (step : TemplateRunStep) (db : Database) {db' : Database}
    → All IsSound db.runs
    → record_template_run_step now tenant_id run_id step db ≡ ok db'
    → Update db.runs db'.runs
unfolding record_template_run_step
record_template_run_step-Update now tenant_id run_id step db s e =
    let (_, _, e1) = >>=-eq-ok (guard (step_valid step) _) _ e in
    let (r, f, e2) = >>=-eq-ok (or_fail (find? (is_run tenant_id run_id) db.runs) _) _ e1 in
    let (r', g, e3) = >>=-eq-ok (run_step now step r) _ e2 in
    inr (
      (record {
        takes = is_run tenant_id run_id;
        previous = r;
        next = r';
        found = or_fail-eq-ok _ _ f;
        sound = run_step-IsSound now step r (All-find? IsSound _ db.runs s (or_fail-eq-ok _ _ f)) g;
        follows = run_step-Follows now step r g;
        written = ground arith;
      }))

pub record_template_run_event-Update :
    (now : ℕ) (input : EventInput) (db : Database) {db' : Database}
    → All IsSound db.runs
    → record_template_run_event now input db ≡ ok db'
    → Update db.runs db'.runs
unfolding record_template_run_event
record_template_run_event-Update now input db s e =
    let (o, _, e1) = >>=-eq-ok (or_fail (template_run_event_operations input.event) _) _ e in
    let (_, _, e2) = >>=-eq-ok (guard (same_operation input.operation o) _) _ e1 in
    let (r, f, e3) = >>=-eq-ok (or_fail (find? (is_event_run input) db.runs) _) _ e2 in
    let (_, _, e4) = >>=-eq-ok (guard (same_status r.status TemplateRunStatus.running) _) _ e3 in
    let (r', g, e5) = >>=-eq-ok (event_counts input.summary r) _ e4 in
    let (ss, _, e6) =
      >>=-eq-ok
        (event_stack_templates now input.tenant_id input.stack_template_id input.event r'
          db.stack_templates)
        _ e5 in
    inr (
      (record {
        takes = is_event_run input;
        previous = r;
        next = r';
        found = or_fail-eq-ok _ _ f;
        sound =
            event_counts-IsSound input.summary r
              (All-find? IsSound _ db.runs s (or_fail-eq-ok _ _ f)) g;
        follows = event_counts-Follows input.summary r g;
        written = ground arith;
      }))

pub finish_template_plan-Update :
    (now : ℕ) (input : FinishPlanInput) (db : Database) {db' : Database} {outcome : PlanOutcome}
    → All IsSound db.runs
    → finish_template_plan now input db ≡ ok (db', outcome)
    → Update db.runs db'.runs
unfolding finish_template_plan
finish_template_plan-Update now input db s e =
    let (r, f, e1) = >>=-eq-ok (or_fail (find? (is_planned_run input) db.runs) _) _ e in
    let (p, g, e2) = >>=-eq-ok (finish_plan_run now input r) _ e1 in
    let sound = All-find? IsSound _ db.runs s (or_fail-eq-ok _ _ f) in
    inr (
      (record {
        takes = is_planned_run input;
        previous = r;
        next = p.0;
        found = or_fail-eq-ok _ _ f;
        sound = finish_plan_run-IsSound now input r sound g;
        follows = finish_plan_run-Follows now input r sound g;
        written = ground arith;
      }))
