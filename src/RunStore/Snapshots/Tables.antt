-- ===== src/RunStore/Snapshots/Tables.antt =====
-- What the writes of stack templates keep of each.
use tflive.Common.{
  ℕ, ◌==◌, ◌&&◌, Bool, true, false, ◌≡◌, refl, arith, inl, inr, List, some, find?, replace, subst,
  if◌then◌else◌, All, All-find?, All-replace, All-update_where, Bool-cases,
}
use tflive.Common.Results.{ok, or_fail, or_fail-eq-ok, guard, >>=-eq-ok}
use tflive.Domain.{
  Text, TemplateRunStatus, TemplateRunEvent, same_status, same_operation, OperationType,
  StackTemplateLifecycle, PlanOutcome, is_destroying,
}
use tflive.RunStore.Rows.{not_found, Run, StackTemplate, is_stack_template}
use tflive.RunStore.Lifecycle.{Follows}
use tflive.RunStore.Status.{
  StatusInput, clear_pending, release_pending, record_lifecycle, record_interrupted_destroy,
  is_failed_destroy, settle_stack_templates,
}
use tflive.RunStore.Progress.{make_live, record_last_applied, event_stack_templates}
use tflive.RunStore.Plans.{
  FinishPlanInput, make_pending, is_template_of, finish_plan_stack_templates,
}
use tflive.RunStore.History.{has_id}
use tflive.RunStore.Snapshots.{Stable}

Follows-refl : (r : Run) → Follows r r
Follows-refl r = record {
  same_id = refl;
  same_tenant = refl;
  same_stack_template = refl;
  same_revision = refl;
  same_config = refl;
  same_operation_type = refl;
  same_auto_approve = refl;
  same_run_number = refl;
  same_trigger_actor = refl;
  moved = inl refl;
}

module _ (runs : List Run) (P : StackTemplate → Type 0) (stable : Stable runs P) where
  pub release_pending-keeps :
      (tenant_id run_id : Text) (ss : List StackTemplate)
      → All P ss
      → All P (release_pending tenant_id run_id ss)
  unfolding release_pending
  release_pending-keeps tenant_id run_id ss = All-update_where P _ clear_pending ss stable.on_clear

  record_lifecycle-keeps :
      (tenant_id stack_template_id : Text) (lifecycle : StackTemplateLifecycle)
      (ss : List StackTemplate) {ss' : List StackTemplate}
      → record_lifecycle tenant_id stack_template_id lifecycle ss ≡ ok ss'
      → All P ss
      → All P ss'
  unfolding record_lifecycle
  record_lifecycle-keeps tenant_id stack_template_id lifecycle ss {ss'} e h =
      let test = is_stack_template tenant_id stack_template_id in
      let (s, f, e1) = >>=-eq-ok (or_fail (find? test ss) not_found) _ e in
      let written : replace test (record s { lifecycle = lifecycle }) ss ≡ ss' = ground arith in
      let found : find? test ss ≡ some s = or_fail-eq-ok _ _ f in
      subst (All P) written
        (All-replace P test _ ss h (stable.on_lifecycle lifecycle s (All-find? P test ss h found)))

  pub record_last_applied-keeps :
      (now : ℕ) (tenant_id stack_template_id : Text) (status : TemplateRunStatus) (r r' : Run)
      (ss : List StackTemplate) {ss' : List StackTemplate}
      → find? (has_id r.id) runs ≡ some r
      → Follows r r'
      → record_last_applied now tenant_id stack_template_id status r' ss ≡ ok ss'
      → All P ss
      → All P ss'
  unfolding record_last_applied
  record_last_applied-keeps now tenant_id stack_template_id status r r' ss {ss'} known f e h =
      let test = is_stack_template tenant_id stack_template_id in
      let (s, found, e1) = >>=-eq-ok (or_fail (find? test ss) not_found) _ e in
      let test_run =
        r'.stack_template_id == s.id
        && same_operation r'.operation OperationType.apply
        && same_status r'.status status in
      let (done, g, e2) = >>=-eq-ok (guard test_run not_found) _ e1 in
      let written : replace test (make_live now r' s) ss ≡ ss' = ground arith in
      let held = All-find? P test ss h (or_fail-eq-ok _ _ found) in
      subst (All P) written (All-replace P test _ ss h (stable.on_live now r r' known f s held))

  pub event_stack_templates-keeps :
      (now : ℕ) (tenant_id stack_template_id : Text) (event : TemplateRunEvent) (r r' : Run)
      (ss : List StackTemplate) {ss' : List StackTemplate}
      → find? (has_id r.id) runs ≡ some r
      → Follows r r'
      → event_stack_templates now tenant_id stack_template_id event r' ss ≡ ok ss'
      → All P ss
      → All P ss'
  unfolding event_stack_templates
  event_stack_templates-keeps now t id TemplateRunEvent.applied r r' ss known f e h =
      record_last_applied-keeps now t id TemplateRunStatus.running r r' ss known f e h
  event_stack_templates-keeps now t id TemplateRunEvent.destroying r r' ss known f e h =
      record_lifecycle-keeps t id StackTemplateLifecycle.destroying ss e h
  event_stack_templates-keeps now t id TemplateRunEvent.destroyed r r' ss known f e h =
      record_lifecycle-keeps t id StackTemplateLifecycle.destroyed ss e h
  event_stack_templates-keeps now t id (TemplateRunEvent.other x) r r' ss {ss'} known f e h =
      let same : ss ≡ ss' = ground arith in subst (All P) same h

  record_interrupted_destroy-keeps :
      (tenant_id stack_template_id : Text) (ss : List StackTemplate) {ss' : List StackTemplate}
      → record_interrupted_destroy tenant_id stack_template_id ss ≡ ok ss'
      → All P ss
      → All P ss'
  unfolding record_interrupted_destroy
  record_interrupted_destroy-keeps tenant_id stack_template_id ss {ss'} e h =
      let (s, f, e1) =
        >>=-eq-ok (or_fail (find? (is_stack_template tenant_id stack_template_id) ss) not_found) _
          e in
      elim (Bool-cases (is_destroying s.lifecycle)) [
        | inl t ↦
            record_lifecycle-keeps tenant_id stack_template_id StackTemplateLifecycle.failed ss
              (rw t at e1) h
        | inr n ↦ (let same : ss ≡ ss' = ground (arith, e1, n) in subst (All P) same h)
      ]

  pub settle_stack_templates-keeps :
      (input : StatusInput) (ended : Bool) (ss : List StackTemplate) {ss' : List StackTemplate}
      → settle_stack_templates input ended ss ≡ ok ss'
      → All P ss
      → All P ss'
  unfolding settle_stack_templates
  settle_stack_templates-keeps input false ss {ss'} e h =
      let same : ss ≡ ss' = ground arith in subst (All P) same h
  settle_stack_templates-keeps input true ss {ss'} e h =
      let (between, f, e1) =
        >>=-eq-ok
          (if is_failed_destroy input
            then record_interrupted_destroy input.tenant_id input.stack_template_id ss
            else ok ss)
          _ e in
      let released : release_pending input.tenant_id input.run_id between ≡ ss' = ground arith in
      let held : All P between = elim (Bool-cases (is_failed_destroy input)) [
        | inl t ↦
            record_interrupted_destroy-keeps input.tenant_id input.stack_template_id ss (rw t at f)
              h
        | inr n ↦ (let same : ss ≡ between = ground (arith, f, n) in subst (All P) same h)
      ] in
      subst (All P) released (release_pending-keeps input.tenant_id input.run_id between held)

  pub finish_plan_stack_templates-keeps :
      (now : ℕ) (input : FinishPlanInput) (outcome : PlanOutcome) (r : Run)
      (ss : List StackTemplate)
      → find? (has_id r.id) runs ≡ some r
      → All P ss
      → All P (finish_plan_stack_templates now input outcome r ss)
  unfolding finish_plan_stack_templates
  finish_plan_stack_templates-keeps now input PlanOutcome.no_changes r ss known h =
      elim (Bool-cases (same_operation input.operation OperationType.destroy)) [
        | inl t ↦ rw t h
        | inr n ↦ rw n (
            All-update_where P (is_template_of r) (make_live now r) ss
              (stable.on_live now r r known (Follows-refl r)) h)
      ]
  finish_plan_stack_templates-keeps now input PlanOutcome.waiting r ss known h =
      All-update_where P (is_template_of r) (make_pending now r) ss (stable.on_pending now r known)
        h
  finish_plan_stack_templates-keeps now input PlanOutcome.planned r ss known h = h
  finish_plan_stack_templates-keeps now input (PlanOutcome.other t) r ss known h = h
