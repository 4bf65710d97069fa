-- ===== src/Workflow/Outcome.antt =====
-- How a workflow leaves its run: what the newest call of a workflow that has returned tells the control plane.
use tflive.Common.{
  Bool, true, false, ◌≡◌, refl, arith, inl, inr, [], ◌∷◌, some, none, if◌then◌else◌,
}
use tflive.Common.Results.{Result, ok, err, Result-cases}
use tflive.Domain.{RunPhase, TemplateRunStatus, PlanOutcome, PlanSummary, TemplateRunEvent}
use tflive.Workflow.Calls.{
  WorkflowInput, Failure, also, Trace, record_status, finish_plan, begin_apply, Environment, W,
  ◌>>=◌, continue, call, TerraformOutput, done, pure,
}
use tflive.Workflow.Control.{set_status, event, fail_on_error, mark_failed}
use tflive.Workflow.Session.{in_session}
use tflive.Workflow.Lifecycle.{
  is_destroy, plan, apply, plan_refusal, apply_refusal, carries, settle_plan, carry_plan,
  carry_claimed, carry_apply, template_plan_workflow, template_apply_workflow,
  plan_session_creation_timeout, apply_session_creation_timeout,
}

-- A workflow returned this result after these calls.
pub data Reported (env : Environment) : RunPhase → Result Failure (Unit {0}) → Trace → Type 0 where
  completed :
      {phase : RunPhase} {t : Trace}
      → Reported env phase
          (ok tt)
          ((record_status TemplateRunStatus.completed none phase, true) ∷ t)
  waits :
      {has_changes : Bool} {summary : PlanSummary} {t : Trace}
      → env (finish_plan has_changes summary) t ≡ ok PlanOutcome.waiting
      → Reported env RunPhase.plan (ok tt) ((finish_plan has_changes summary, true) ∷ t)
  lost_claim :
      {auto_approve : Bool} {t : Trace}
      → env (begin_apply auto_approve) t ≡ ok false
      → Reported env RunPhase.apply (ok tt) ((begin_apply auto_approve, false) ∷ t)
  marked :
      {phase : RunPhase} {e : Failure} {t : Trace}
      → Reported env phase
          (err e)
          ((record_status TemplateRunStatus.failed (some e) phase, true) ∷ t)
  mark_failed_too :
      {phase : RunPhase} {e f : Failure} {t : Trace}
      → env (record_status TemplateRunStatus.failed (some e) phase) t ≡ err f
      → Reported env phase
          (err (also e f))
          ((record_status TemplateRunStatus.failed (some e) phase, false) ∷ t)

-- What a success leaves.
abbrev Leaves : {A : Type 0} → W A → Trace → (Trace → Type 0) → Type 0
Leaves {A} m t Q = (a : A) → (m t).0 ≡ ok a → Q (m t).1

>>=-Leaves :
    {A B : Type 0} (m : W A) (f : A → W B) (t : Trace) (Q : Trace → Type 0)
    → ((a : A) → (m t).0 ≡ ok a → Leaves (f a) (m t).1 Q)
    → Leaves (◌>>=◌ m f) t Q
>>=-Leaves {A} {B} m f t Q p = go (m t).0 refl
  where
    go :
        (r : Result Failure A)
        → (m t).0 ≡ r
        → (b : B) → (continue r f (m t).1).0 ≡ ok b
        → Q (continue r f (m t).1).1
    go (ok a) e b h = p a e b h
    go (err x) e b h = ground arith

module _ (env : Environment) where
  completed-Leaves :
      (phase : RunPhase) (t : Trace)
      → Leaves
          (set_status env phase TemplateRunStatus.completed none)
          t
          (Reported env phase (ok tt))
  unfolding set_status
  completed-Leaves phase t u e =
      elim (Result-cases (env (record_status TemplateRunStatus.completed none phase) t)) [
        | inl (a, q) ↦ rw q completed
        | inr (x, q) ↦ ground arith
      ]

  fail_on_error-Reported :
      (phase : RunPhase) (m : W (Unit {0})) (t : Trace)
      → Leaves m t (Reported env phase (ok tt))
      → Reported env phase (fail_on_error env phase m t).0 (fail_on_error env phase m t).1
  unfolding fail_on_error mark_failed set_status
  fail_on_error-Reported phase m t p = elim (Result-cases (m t).0) [
    | inl (a, q) ↦ rw q (p a q)
    | inr (e, q) ↦
        rw q
          (elim (Result-cases
            (env (record_status TemplateRunStatus.failed (some e) phase) (m t).1)) [
              | inl (a, z) ↦ rw z marked
              | inr (f, z) ↦ rw z (mark_failed_too z)
            ])
  ]

module _ (env : Environment) (input : WorkflowInput) where
  settle_plan-Leaves :
      (planned : TerraformOutput) (outcome : PlanOutcome) (t : Trace)
      → env (finish_plan planned.has_changes planned.summary) t ≡ ok outcome
      → Leaves
          (settle_plan env input outcome)
          ((finish_plan planned.has_changes planned.summary, true) ∷ t)
          (Reported env RunPhase.plan (ok tt))
  unfolding settle_plan
  settle_plan-Leaves planned PlanOutcome.waiting t e = λ u h. waits e
  settle_plan-Leaves planned PlanOutcome.planned t e =
      completed-Leaves env RunPhase.plan
        ((finish_plan planned.has_changes planned.summary, true) ∷ t)
  settle_plan-Leaves planned (PlanOutcome.other x) t e = λ u h. ground arith
  settle_plan-Leaves planned PlanOutcome.no_changes t e =
      >>=-Leaves (if is_destroy input then event env TemplateRunEvent.destroyed none else pure tt)
        (λ a. set_status env RunPhase.plan TemplateRunStatus.completed none)
        ((finish_plan planned.has_changes planned.summary, true) ∷ t)
        (Reported env RunPhase.plan (ok tt)) (λ a q. completed-Leaves env RunPhase.plan _)

  finish-Leaves :
      (planned : TerraformOutput) (t : Trace)
      → Leaves
          (call env (finish_plan planned.has_changes planned.summary) >>= settle_plan env input)
          t
          (Reported env RunPhase.plan (ok tt))
  finish-Leaves planned t =
      >>=-Leaves (call env (finish_plan planned.has_changes planned.summary))
        (settle_plan env input) t (Reported env RunPhase.plan (ok tt))
        (λ outcome e. rw e (settle_plan-Leaves planned outcome t e))

  carry_plan-Leaves : Leaves (carry_plan env input) [] (Reported env RunPhase.plan (ok tt))
  unfolding carry_plan
  carry_plan-Leaves =
      >>=-Leaves (carries (plan_refusal input input.operation)) _ []
        (Reported env RunPhase.plan (ok tt))
        (λ u e.
          let t0 = (carries (plan_refusal input input.operation) []).1 in
          let start = set_status env RunPhase.plan TemplateRunStatus.running none in
          >>=-Leaves start _ t0 (Reported env RunPhase.plan (ok tt)) (λ v e1.
            let session =
              in_session env plan_session_creation_timeout RunPhase.plan (plan env input) in
            >>=-Leaves session _ (start t0).1 (Reported env RunPhase.plan (ok tt))
              (λ planned e2. finish-Leaves planned (session (start t0).1).1)))

  claim-Leaves :
      (t : Trace)
      → Leaves
          (call env (begin_apply input.auto_approve) >>= carry_claimed env input)
          t
          (Reported env RunPhase.apply (ok tt))
  unfolding carry_claimed
  claim-Leaves t =
      >>=-Leaves (call env (begin_apply input.auto_approve)) (carry_claimed env input) t
        (Reported env RunPhase.apply (ok tt)) go
    where
      go :
          (granted : Bool)
          → env (begin_apply input.auto_approve) t ≡ ok granted
          → Leaves
              (carry_claimed env input granted)
              ((
                begin_apply input.auto_approve,
                done (begin_apply input.auto_approve) (env (begin_apply input.auto_approve) t),
              )
                ∷ t)
              (Reported env RunPhase.apply (ok tt))
      go false e = λ u h. rw e (lost_claim e)
      go true e =
          >>=-Leaves
            (in_session env apply_session_creation_timeout RunPhase.apply (apply env input)) _ _
            (Reported env RunPhase.apply (ok tt)) (λ u q. completed-Leaves env RunPhase.apply _)

  carry_apply-Leaves : Leaves (carry_apply env input) [] (Reported env RunPhase.apply (ok tt))
  unfolding carry_apply
  carry_apply-Leaves =
      >>=-Leaves (carries (apply_refusal input input.operation)) _ []
        (Reported env RunPhase.apply (ok tt))
        (λ u e. claim-Leaves (carries (apply_refusal input input.operation) []).1)

  -- However a plan workflow returns, its newest call reports it: on success the run was recorded completed or its
  -- plan was finished and waits for approval; on an error the run was recorded failed with that error, or that record
  -- failed too and the returned error joins both.
  pub template_plan_workflow-Reported :
      Reported env RunPhase.plan
        (template_plan_workflow env input []).0
        (template_plan_workflow env input []).1
  unfolding template_plan_workflow
  template_plan_workflow-Reported =
      fail_on_error-Reported env RunPhase.plan (carry_plan env input) [] carry_plan-Leaves

  -- However an apply workflow returns, its newest call reports it: on success the run was recorded completed, or the
  -- claim of the run was lost; on an error the run was recorded failed with that error, or that record failed too and
  -- the returned error joins both.
  pub template_apply_workflow-Reported :
      Reported env RunPhase.apply
        (template_apply_workflow env input []).0
        (template_apply_workflow env input []).1
  unfolding template_apply_workflow
  template_apply_workflow-Reported =
      fail_on_error-Reported env RunPhase.apply (carry_apply env input) [] carry_apply-Leaves
