-- ===== src/Workflow/Session.antt =====
-- internal/workflows/template_run.go: `session`, the executor work of one phase, and `inSession`.
use tflive.Common.{ℕ, ◌==◌, Bool, true, false, none, some, if◌then◌else◌}
use tflive.Domain.{Text, no_text, TemplateRunStep, RunPhase, same_phase, TerraformCommandType}
use tflive.Workflow.Calls.{
  WorkflowInput, Failure, also, TerraformOutput, PlanTransfer, upload, download, seal_source_token,
  seal_plan_key, seal_credentials, create_session, complete_session, prepare_workspace,
  fetch_source, run_terraform, transfer_plan, release_run_key, cleanup_workspace, Environment, W,
  pure, fail, ◌>>=◌, ◌>>◌, call, catch, finally,
}
use tflive.Workflow.Control.{
  command_step, failed_command_log, terraform_timeout, record_progress, execute_step, log,
}

-- `workspace`: the empty text is no path, and no key.
pub record Workspace : Type 0 where
  pub phase : RunPhase
  pub path : Text
  pub terraform_path : Text
  pub public_key : Text

abbrev pub unopened : RunPhase → Workspace
unopened phase = record {
  phase = phase;
  path = no_text;
  terraform_path = no_text;
  public_key = no_text;
}

module _ (env : Environment) where
  -- `open`: the workspace of the phase on the executor. Where it fails, the workspace stays unopened.
  unfoldable pub open_workspace : RunPhase → W Workspace
  open_workspace phase = do
    prepared ← execute_step env TemplateRunStep.preparing_workspace prepare_workspace
    pure (record (unopened phase) { path = prepared.path; public_key = prepared.public_key })

  -- `close`, best effort: an error of either call is dropped.
  unfoldable pub close_workspace : Workspace → W (Unit {0})
  close_workspace ws =
      catch (if ws.public_key == no_text then pure tt else call env release_run_key) (λ e. pure tt)
      >> catch
          (if ws.path == no_text
            then pure tt
            else call env (cleanup_workspace ws.path (same_phase ws.phase RunPhase.apply)))
          (λ e. pure tt)

  -- `fetchSource`, which notes the path of the Terraform root.
  unfoldable pub fetch_source_step : Workspace → W Workspace
  fetch_source_step ws = do
    token ← call env (seal_source_token ws.public_key)
    path ← execute_step env TemplateRunStep.fetching_source (fetch_source ws.path token)
    pure (record ws { terraform_path = path })

  -- `transferPlan`.
  unfoldable pub transfer_plan_step :
      TemplateRunStep → PlanTransfer → Bool → Workspace → W (Unit {0})
  transfer_plan_step step transfer create_key ws = do
    key ← call env (seal_plan_key ws.public_key create_key)
    execute_step env step (transfer_plan transfer ws.terraform_path key)

  unfoldable pub save_plan : Workspace → W (Unit {0})
  save_plan ws = transfer_plan_step TemplateRunStep.saving_plan upload true ws

  unfoldable pub restore_saved_plan : Workspace → W (Unit {0})
  restore_saved_plan ws = transfer_plan_step TemplateRunStep.restoring_plan download false ws

  -- The log of a failed command is recorded before its error propagates.
  unfoldable pub record_failed_log : WorkflowInput → Failure → W TerraformOutput
  record_failed_log input e = elim (failed_command_log e) [
    | none ↦ fail e
    | some l ↦ catch (log env input l) (λ f. fail (also e f)) >> fail e
  ]

  -- The command's activity, as the step it is.
  unfoldable pub run_command :
      WorkflowInput → TerraformCommandType → Workspace → Text → W TerraformOutput
  run_command input command ws sealed =
      execute_step env (command_step command)
        (run_terraform command ws.phase ws.path ws.terraform_path sealed (terraform_timeout input))

  unfoldable pub terraform : WorkflowInput → TerraformCommandType → Workspace → W TerraformOutput
  terraform input command ws = do
    sealed ← call env (seal_credentials ws.public_key)
    output ← catch (run_command input command ws sealed) (record_failed_log input)
    log env input output.log
    pure output

  -- `ready`: the source, then with `restore_plan` the saved plan, then init and workspace selection.
  unfoldable pub ready : WorkflowInput → Bool → Workspace → W Workspace
  ready input restore_plan ws = do
    fetched ← fetch_source_step ws
    if restore_plan then restore_saved_plan fetched else pure tt
    terraform input TerraformCommandType.init fetched
    terraform input TerraformCommandType.select_workspace fetched
    pure fetched

  -- The deferred `close` follows `open`, whatever `fn` makes of the open workspace. Where `open` failed
  -- there is no path and no key, and nothing to close.
  unfoldable pub in_workspace : {A : Type 0} → RunPhase → (Workspace → W A) → W A
  in_workspace phase fn = do ws ← open_workspace phase; finally (close_workspace ws) (fn ws)

  -- `inSession`. Waiting for the executor is the run's first step.
  unfoldable pub in_session : {A : Type 0} → ℕ → RunPhase → (Workspace → W A) → W A
  in_session creation_timeout phase fn = do
    record_progress env TemplateRunStep.waiting_for_executor
    call env (create_session creation_timeout)
    finally (call env complete_session) (in_workspace phase fn)
