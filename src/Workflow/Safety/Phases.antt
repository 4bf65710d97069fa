-- ===== src/Workflow/Safety/Phases.antt =====
-- The work of the two phases is safe in an open session.
use tflive.Common.{◌∙◌, true, false, not, ◌||◌, ◌≡◌, arith, none, some, if◌then◌else◌}
use tflive.Domain.{OperationType, same_operation, TemplateRunEvent}
use tflive.Workflow.Calls.{WorkflowInput, Trace, Environment, TerraformOutput, ◌>>◌, pure}
use tflive.Workflow.Control.{event}
use tflive.Workflow.Session.{Workspace, save_plan, terraform, ready}
use tflive.Workflow.Lifecycle.{
  plan, apply, plan_refusal, apply_refusal, plan_command, apply_command, is_destroy,
}
use tflive.Workflow.Safety.{Safe, in_open_session, may_run, claimed, restored, announced}
use tflive.Workflow.Safety.Steps.{Safe-refl, save_plan-Safe, terraform-Safe, event-Safe}
use tflive.Workflow.Safety.Chains.{
  Ensures, >>=-Ensures, Safe-Ensures, if-Safe, if-Ensures, pure-Ensures, ready-Ensures,
}

may_run-plan_command :
    (input : WorkflowInput) (t : Trace)
    → plan_refusal input input.operation ≡ none
    → may_run input (plan_command input) t ≡ true
unfolding plan_refusal
may_run-plan_command input t e = ground arith

may_run-apply_command :
    (input : WorkflowInput) (t : Trace)
    → apply_refusal input input.operation ≡ none
    → claimed t ≡ true
    → (not input.auto_approve ≡ true → restored t ≡ true)
    → (is_destroy input ≡ true → announced t ≡ true)
    → may_run input (apply_command input) t ≡ true
unfolding apply_refusal
may_run-apply_command input t e c r a = ground arith

module _ (env : Environment) (input : WorkflowInput) where
  keep-Safe :
      (output : TerraformOutput) (ws : Workspace) (t : Trace)
      → in_open_session t ≡ true
      → Safe input t
          ((if not output.has_changes || same_operation input.operation OperationType.plan
              then pure output
              else (save_plan env ws >> pure output))
            t).1
  keep-Safe output ws t o =
      if-Safe input (not output.has_changes || same_operation input.operation OperationType.plan)
        (pure output) (save_plan env ws >> pure output) t (λ e. Safe-refl input t)
        (λ e. saved (ground arith))
    where
      saved :
          same_operation input.operation OperationType.plan ≡ false
          → Safe input t ((save_plan env ws >> pure output) t).1
      saved e =
          let p =
            >>=-Ensures input (save_plan env ws) (λ u. pure output) t
              (Safe-Ensures input (save_plan env ws) t (save_plan-Safe env input ws t o e))
              (λ u s q.
                Safe-Ensures input (pure output) (save_plan env ws t).1
                  (Safe-refl input (save_plan env ws t).1)) in
          p.safe

  pub plan-Safe :
      (ws : Workspace) (t : Trace)
      → in_open_session t ≡ true
      → plan_refusal input input.operation ≡ none
      → Safe input t (plan env input ws t).1
  unfolding plan
  plan-Safe ws t o e =
      let prepare = ready env input false ws in
      let t1 = (prepare t).1 in
      let p =
        >>=-Ensures input prepare _ t (ready-Ensures env input false ws t o (λ x. ground arith))
          (λ readied s1 r.
            let command = terraform env input (plan_command input) readied in
            let o1 = s1.same_session ∙ o in
            let s2 =
              terraform-Safe env input (plan_command input) readied t1 o1
                (may_run-plan_command input t1 e) in
            >>=-Ensures input command _ t1 (Safe-Ensures input command t1 s2) (λ output s3 q.
              Safe-Ensures input _ (command t1).1
                (keep-Safe output readied (command t1).1 (s2.same_session ∙ o1)))) in
      p.safe

  announce-Ensures :
      (t : Trace)
      → Ensures input
          (if is_destroy input then event env TemplateRunEvent.destroying none else pure tt)
          t
          (λ u. is_destroy input ≡ true → announced u ≡ true)
  unfolding event
  announce-Ensures t =
      if-Ensures input (is_destroy input) (event env TemplateRunEvent.destroying none) (pure tt) t
        (λ d. record {
          safe = event-Safe env input TemplateRunEvent.destroying none t;
          after = λ a e x. ground arith;
        })
        (λ d. pure-Ensures input tt t (λ x. ground arith))

  reported :
      (output : TerraformOutput) (t : Trace)
      → Safe input t
          ((if is_destroy input
              then event env TemplateRunEvent.destroyed (some output.summary)
              else event env TemplateRunEvent.applied (some output.summary))
            t).1
  reported output t =
      if-Safe input (is_destroy input) (event env TemplateRunEvent.destroyed (some output.summary))
        (event env TemplateRunEvent.applied (some output.summary)) t
        (λ e. event-Safe env input TemplateRunEvent.destroyed (some output.summary) t)
        (λ e. event-Safe env input TemplateRunEvent.applied (some output.summary) t)

  pub apply-Safe :
      (ws : Workspace) (t : Trace)
      → in_open_session t ≡ true
      → claimed t ≡ true
      → apply_refusal input input.operation ≡ none
      → Safe input t (apply env input ws t).1
  unfolding apply
  apply-Safe ws t o c e =
      let prepare = ready env input (not input.auto_approve) ws in
      let t1 = (prepare t).1 in
      let p =
        >>=-Ensures input prepare _ t
          (ready-Ensures env input (not input.auto_approve) ws t o (λ x. c))
          (λ readied s1 r.
            let announce =
              if is_destroy input then event env TemplateRunEvent.destroying none else pure tt in
            let t2 = (announce t1).1 in
            >>=-Ensures input announce _ t1 (announce-Ensures t1) (λ u s2 d.
              let command = terraform env input (apply_command input) readied in
              let o2 = s2.same_session ∙ s1.same_session ∙ o in
              let allowed =
                may_run-apply_command input t2 e (s2.still_claimed (s1.still_claimed c))
                  (λ x. s2.still_restored (r x)) d in
              let s3 = terraform-Safe env input (apply_command input) readied t2 o2 allowed in
              >>=-Ensures input command _ t2 (Safe-Ensures input command t2 s3) (λ output s4 q.
                Safe-Ensures input _ (command t2).1 (reported output (command t2).1)))) in
      p.safe
