-- ===== src/Workflow/Safety/Sessions.antt =====
-- A session keeps the trace lawful, and is over when it returns.
use tflive.Common.{◌∙◌, ℕ, true, false, ◌≡◌, refl, arith, ◌∷◌}
use tflive.Common.Results.{Result, ok, err}
use tflive.Domain.{RunPhase, TemplateRunStep}
use tflive.Workflow.Calls.{
  WorkflowInput, Failure, Trace, record_step, create_session, Environment, W, ◌>>=◌, continue,
  finally, on_error, catch,
}
use tflive.Workflow.Control.{execute_step, record_progress}
use tflive.Workflow.Session.{Workspace, open_workspace, close_workspace, in_workspace, in_session}
use tflive.Workflow.Safety.{Safe, in_open_session, lawful}
use tflive.Workflow.Safety.Steps.{Safe-trans}
use tflive.Workflow.Safety.Chains.{>>=-Ensures, Safe-Ensures}

-- What a piece of a workflow outside the session does to the trace.
pub record Closed (input : WorkflowInput) (t t' : Trace) : Type 0 where
  pub lawfully : lawful input t ≡ true → lawful input t' ≡ true
  pub over : in_open_session t ≡ false → in_open_session t' ≡ false

pub Closed-trans :
    (input : WorkflowInput) {t u v : Trace} → Closed input t u → Closed input u v → Closed input t v
Closed-trans input p q = ground arith

pub >>=-Closed :
    {A B : Type 0} (input : WorkflowInput) (m : W A) (f : A → W B) (t : Trace)
    → Closed input t (m t).1
    → ((a : A) → (m t).0 ≡ ok a → Closed input (m t).1 (f a (m t).1).1)
    → Closed input t (◌>>=◌ m f t).1
>>=-Closed {A} {B} input m f t p q = go (m t).0 refl
  where
    go : (r : Result Failure A) → (m t).0 ≡ r → Closed input t (continue r f (m t).1).1
    go (ok a) e = Closed-trans input p (q a e)
    go (err x) e = p

pub catch-Closed :
    {A : Type 0} (input : WorkflowInput) (m : W A) (h : Failure → W A) (t : Trace)
    → Closed input t (m t).1
    → ((e : Failure) → Closed input (m t).1 (h e (m t).1).1)
    → Closed input t (catch m h t).1
catch-Closed {A} input m h t p q = go (m t).0
  where
    go : (r : Result Failure A) → Closed input t (on_error r h (m t).1).1
    go (ok a) = p
    go (err x) = Closed-trans input p (q x)

module _ (env : Environment) (input : WorkflowInput) where
  open_workspace-Safe :
      (phase : RunPhase) (t : Trace)
      → in_open_session t ≡ true
      → Safe input t (open_workspace env phase t).1
  unfolding open_workspace execute_step record_progress
  open_workspace-Safe phase t o = ground arith

  close_workspace-Safe :
      (ws : Workspace) (t : Trace)
      → in_open_session t ≡ true
      → Safe input t (close_workspace env ws t).1
  unfolding close_workspace
  close_workspace-Safe ws t o = ground arith

  in_workspace-Safe :
      {A : Type 0} (phase : RunPhase) (fn : Workspace → W A) (t : Trace)
      → in_open_session t ≡ true
      → ((ws : Workspace) (u : Trace)
          → in_open_session u ≡ true
          → Safe input t u
          → Safe input u (fn ws u).1)
      → Safe input t (in_workspace env phase fn t).1
  unfolding in_workspace
  in_workspace-Safe phase fn t o safe =
      let s = open_workspace-Safe phase t o in
      let t1 = (open_workspace env phase t).1 in
      let p =
        >>=-Ensures input (open_workspace env phase)
          (λ ws. finally (close_workspace env ws) (fn ws)) t
          (Safe-Ensures input (open_workspace env phase) t s)
          (λ ws s1 q.
            let o1 = s1.same_session ∙ o in
            let s2 = safe ws t1 o1 s1 in
            Safe-Ensures input (finally (close_workspace env ws) (fn ws)) t1 (
              Safe-trans input s2 (close_workspace-Safe ws (fn ws t1).1 (s2.same_session ∙ o1)))) in
      p.safe

  pub in_session-Closed :
      {A : Type 0} (timeout : ℕ) (phase : RunPhase) (fn : Workspace → W A) (t : Trace)
      → ((ws : Workspace) (u : Trace)
          → in_open_session u ≡ true
          → Safe input
              ((create_session timeout, true)
                ∷ (record_step TemplateRunStep.waiting_for_executor, true)
                ∷ t)
              u
          → Safe input u (fn ws u).1)
      → Closed input t (in_session env timeout phase fn t).1
  unfolding in_session record_progress
  in_session-Closed timeout phase fn t safe =
      let s =
        in_workspace-Safe phase fn
          ((create_session timeout, true)
            ∷ (record_step TemplateRunStep.waiting_for_executor, true)
            ∷ t)
          refl safe in
      ground arith
