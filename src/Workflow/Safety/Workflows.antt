-- ===== src/Workflow/Safety/Workflows.antt =====
-- The calls of both workflows, in every environment.
use tflive.Common.{Bool, true, false, ◌≡◌, refl, arith, [], Option, none}
use tflive.Common.Results.{ok}
use tflive.Domain.{RunPhase, TemplateRunStatus, PlanOutcome}
use tflive.Workflow.Calls.{
  WorkflowInput, Failure, Trace, begin_apply, finish_plan, Environment, call, TerraformOutput,
}
use tflive.Workflow.Control.{set_status, event, fail_on_error, mark_failed}
use tflive.Workflow.Session.{in_session}
use tflive.Workflow.Lifecycle.{
  plan, apply, plan_refusal, apply_refusal, carries, settle_plan, carry_plan, carry_claimed,
  carry_apply, template_plan_workflow, template_apply_workflow, plan_session_creation_timeout,
  apply_session_creation_timeout,
}
use tflive.Workflow.Safety.{in_open_session, lawful, claimed}
use tflive.Workflow.Safety.Phases.{plan-Safe, apply-Safe}
use tflive.Workflow.Safety.Sessions.{Closed, >>=-Closed, catch-Closed, in_session-Closed}

module _ (env : Environment) (input : WorkflowInput) where
  Closed-refl : (t : Trace) → Closed input t t
  Closed-refl t = ground arith

  mark_failed-Closed :
      (phase : RunPhase) (e : Failure) (t : Trace) → Closed input t (mark_failed env phase e t).1
  unfolding mark_failed set_status
  mark_failed-Closed phase e t = ground arith

  set_status-Closed :
      (status : TemplateRunStatus) (t : Trace)
      → Closed input t (set_status env RunPhase.plan status none t).1
  unfolding set_status
  set_status-Closed status t = ground arith

  completed-Closed :
      (t : Trace)
      → Closed input t (set_status env RunPhase.apply TemplateRunStatus.completed none t).1
  unfolding set_status
  completed-Closed t = ground arith

  settle_plan-Closed :
      (outcome : PlanOutcome) (t : Trace) → Closed input t (settle_plan env input outcome t).1
  unfolding settle_plan set_status event
  settle_plan-Closed outcome t = ground arith

  finish_plan-Closed :
      (planned : TerraformOutput) (t : Trace)
      → Closed input t (call env (finish_plan planned.has_changes planned.summary) t).1
  finish_plan-Closed planned t = ground arith

  carries-Closed : (refusal : Option Failure) (t : Trace) → Closed input t (carries refusal t).1
  carries-Closed refusal t = ground arith

  carries-none :
      (refusal : Option Failure) (t : Trace) (u : Unit {0})
      → (carries refusal t).0 ≡ ok u
      → refusal ≡ none
  carries-none refusal t u e = ground arith

  carry_plan-Closed : (t : Trace) → Closed input t (carry_plan env input t).1
  unfolding carry_plan
  carry_plan-Closed t =
      >>=-Closed input (carries (plan_refusal input input.operation)) _ t
        (carries-Closed (plan_refusal input input.operation) t)
        (λ u e.
          let none_refused = carries-none (plan_refusal input input.operation) t u e in
          let t0 = (carries (plan_refusal input input.operation) t).1 in
          >>=-Closed input (set_status env RunPhase.plan TemplateRunStatus.running none) _ t0
            (set_status-Closed TemplateRunStatus.running t0)
            (λ v e1.
              let t1 = (set_status env RunPhase.plan TemplateRunStatus.running none t0).1 in
              let session =
                in_session env plan_session_creation_timeout RunPhase.plan (plan env input) in
              >>=-Closed input session _ t1
                (in_session-Closed env input plan_session_creation_timeout RunPhase.plan
                  (plan env input) t1 (λ ws w o s. plan-Safe env input ws w o none_refused))
                (λ planned e2.
                  let t2 = (session t1).1 in
                  let finish = call env (finish_plan planned.has_changes planned.summary) in
                  >>=-Closed input finish _ t2 (finish_plan-Closed planned t2)
                    (λ outcome e3. settle_plan-Closed outcome (finish t2).1))))

  carry_claimed-Closed :
      (granted : Bool) (t : Trace)
      → apply_refusal input input.operation ≡ none
      → (granted ≡ true → claimed t ≡ true)
      → Closed input t (carry_claimed env input granted t).1
  unfolding carry_claimed
  carry_claimed-Closed false t r c = Closed-refl t
  carry_claimed-Closed true t r c =
      let session =
        in_session env apply_session_creation_timeout RunPhase.apply (apply env input) in
      >>=-Closed input session _ t
        (in_session-Closed env input apply_session_creation_timeout RunPhase.apply (apply env input)
          t (λ ws w o s. apply-Safe env input ws w o (s.still_claimed (c refl)) r))
        (λ u e. completed-Closed (session t).1)

  begin_apply-Closed : (t : Trace) → Closed input t (call env (begin_apply input.auto_approve) t).1
  begin_apply-Closed t = ground arith

  begin_apply-claimed :
      (t : Trace) (granted : Bool)
      → (call env (begin_apply input.auto_approve) t).0 ≡ ok granted
      → granted ≡ true
      → claimed (call env (begin_apply input.auto_approve) t).1 ≡ true
  begin_apply-claimed t granted e g = ground arith

  carry_apply-Closed : (t : Trace) → Closed input t (carry_apply env input t).1
  unfolding carry_apply
  carry_apply-Closed t =
      >>=-Closed input (carries (apply_refusal input input.operation)) _ t
        (carries-Closed (apply_refusal input input.operation) t)
        (λ u e.
          let none_refused = carries-none (apply_refusal input input.operation) t u e in
          let t0 = (carries (apply_refusal input input.operation) t).1 in
          let claim = call env (begin_apply input.auto_approve) in
          >>=-Closed input claim _ t0 (begin_apply-Closed t0) (λ granted e1.
            carry_claimed-Closed granted (claim t0).1 none_refused
              (begin_apply-claimed t0 granted e1)))

  -- For every environment, each call of a plan workflow is permitted by the calls before it: work on the
  -- executor only inside the run's open session, a step's work right after the step is recorded, a plan
  -- command only for a run that is not auto-approved and a destroy plan only for a destroy run, no apply
  -- or destroy without a claim, a plan saved only for a run whose operation is not plan, running recorded only for
  -- the plan phase, and a log only under the workflow's own run and tenant; and when the workflow returns,
  -- its session is over.
  pub template_plan_workflow-lawful :
      lawful input (template_plan_workflow env input []).1 ≡ true
      × in_open_session (template_plan_workflow env input []).1 ≡ false
  unfolding template_plan_workflow fail_on_error
  template_plan_workflow-lawful =
      let c =
        catch-Closed input (carry_plan env input) (mark_failed env RunPhase.plan) []
          (carry_plan-Closed [])
          (λ e. mark_failed-Closed RunPhase.plan e (carry_plan env input []).1) in
      (c.lawfully refl, c.over refl)

  -- For every environment, each call of an apply workflow is permitted by the calls before it: Terraform
  -- applies or destroys only after the run was claimed and, unless the run is auto-approved, its saved plan
  -- was put back, and destroys only after the stack template was marked destroying; a saved plan is
  -- fetched only after the claim; work on the executor happens only inside the open session, a step's work
  -- right after the step is recorded; running is not recorded for the apply phase; and a log is recorded
  -- only under the workflow's own run and tenant. When the workflow returns, its session is over.
  pub template_apply_workflow-lawful :
      lawful input (template_apply_workflow env input []).1 ≡ true
      × in_open_session (template_apply_workflow env input []).1 ≡ false
  unfolding template_apply_workflow fail_on_error
  template_apply_workflow-lawful =
      let c =
        catch-Closed input (carry_apply env input) (mark_failed env RunPhase.apply) []
          (carry_apply-Closed [])
          (λ e. mark_failed-Closed RunPhase.apply e (carry_apply env input []).1) in
      (c.lawfully refl, c.over refl)
