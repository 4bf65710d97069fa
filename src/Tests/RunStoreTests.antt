-- ===== src/Tests/RunStoreTests.antt =====
-- The life of an apply run on the run store, and instances of the store's theorems.
use tflive.Common.{
  true, false, ℕ, ◌≡◌, refl, arith, List, [], ◌∷◌, none, some, find?, map, zero, suc,
}
use tflive.Domain.{TemplateRunStatus, RunPhase, terminal}
use tflive.RunStore.Rows.{Run, Database, Approval, Discard, not_approvable}
use tflive.RunStore.Executions.{end_workflow_execution}
use tflive.RunStore.Status.{record_template_run_status, start_run, end_run}
use tflive.RunStore.Progress.{record_template_run_event, record_template_run_step}
use tflive.RunStore.Plans.{
  begin_template_apply, approve_template_run, finish_template_plan, discard_template_run,
}
use tflive.RunStore.Create.{create_plan_key, create_template_run}
use tflive.RunStore.Operations.{Operation, creates, perform, run_history, committed_with}
use tflive.RunStore.Changes.{Change}
use tflive.RunStore.Changes.Operations.{perform-Change}
use tflive.RunStore.History.{
  IsConsistent, AllFromWorkflow, has_id, perform-IsConsistent, run_history-IsConsistent,
  run_history-Evolves, run_history-terminal, Evolves,
}
use tflive.RunStore.Races.{discard_template_run-final, begin_template_apply-final}
use tflive.Common.Results.{ok, err}
use tflive.Tests.Samples.{sample_run, empty_database, applied_history, status_operation}

abbrev created_database : Database
created_database = perform 100 (creates sample_run) empty_database

abbrev applied_database : Database
applied_database = run_history applied_history created_database

abbrev first_run : List Run → Run
first_run [] = sample_run
first_run (r ∷ rs) = r

statuses : map (λ r. r.status) applied_database.runs ≡ TemplateRunStatus.completed ∷ []
unfolding run_history perform record_template_run_status record_template_run_event
    begin_template_apply approve_template_run finish_template_plan create_plan_key
    record_template_run_step create_template_run start_run end_run end_workflow_execution
statuses = refl

empty_database-IsConsistent : IsConsistent empty_database
empty_database-IsConsistent = record {
  sound = tt;
  exclusive = λ t s. ground arith;
  unique = λ i. ground arith;
}

perform-Change_example : Change empty_database.runs created_database.runs
perform-Change_example = perform-Change 100 (creates sample_run) empty_database tt tt

perform-IsConsistent_example : IsConsistent created_database
perform-IsConsistent_example =
    perform-IsConsistent 100 (creates sample_run) empty_database tt empty_database-IsConsistent

created_database-IsConsistent : IsConsistent created_database
created_database-IsConsistent =
    perform-IsConsistent 100 (creates sample_run) empty_database tt empty_database-IsConsistent

applied_history-FromWorkflow : AllFromWorkflow applied_history
applied_history-FromWorkflow = ((λ e. refl), (tt, (tt, (tt, (tt, (tt, (tt, ((λ e. cc), tt))))))))

applied_database-IsConsistent : IsConsistent applied_database
applied_database-IsConsistent =
    run_history-IsConsistent applied_history created_database applied_history-FromWorkflow
      created_database-IsConsistent

found_created : find? (has_id 11) created_database.runs ≡ some (first_run created_database.runs)
unfolding perform create_template_run
found_created = refl

run_history-Evolves_example :
    (r' : Run) × (find? (has_id 11) (run_history applied_history created_database).runs ≡ some r')
    × Evolves (first_run created_database.runs) r'
run_history-Evolves_example =
    run_history-Evolves applied_history created_database 11 (first_run created_database.runs)
      applied_history-FromWorkflow created_database-IsConsistent found_created

found_applied : find? (has_id 11) applied_database.runs ≡ some (first_run applied_database.runs)
unfolding run_history perform record_template_run_status record_template_run_event
    begin_template_apply approve_template_run finish_template_plan create_plan_key
    record_template_run_step create_template_run start_run end_run end_workflow_execution
found_applied = refl

completed_status : terminal (first_run applied_database.runs).status ≡ true
unfolding run_history perform record_template_run_status record_template_run_event
    begin_template_apply approve_template_run finish_template_plan create_plan_key
    record_template_run_step create_template_run start_run end_run end_workflow_execution
completed_status = refl

-- A late failure of the apply's workflow.
abbrev late_failure : List (ℕ × Operation)
late_failure = (109, status_operation TemplateRunStatus.failed RunPhase.apply) ∷ []

run_history-terminal_example :
    (r' : Run) × (find? (has_id 11) (run_history late_failure applied_database).runs ≡ some r')
    × (r'.status ≡ (first_run applied_database.runs).status)
    × (r'.plan_artifact_dek ≡ none)
run_history-terminal_example =
    run_history-terminal late_failure applied_database 11 (first_run applied_database.runs)
      ((λ e. cc), tt) applied_database-IsConsistent found_applied completed_status

abbrev first_of : ℕ → List (ℕ × Operation) → List (ℕ × Operation)
first_of zero ops = []
first_of (suc n) [] = []
first_of (suc n) (op ∷ ops) = op ∷ first_of n ops

-- The run waits for approval, and is approved.
abbrev waiting_database : Database
waiting_database = run_history (first_of 4 applied_history) created_database

abbrev approved_database : Database
approved_database = run_history (first_of 5 applied_history) created_database

waiting_database-IsConsistent : IsConsistent waiting_database
waiting_database-IsConsistent =
    run_history-IsConsistent (first_of 4 applied_history) created_database
      ((λ e. refl), (tt, (tt, (tt, tt)))) created_database-IsConsistent

approved_database-IsConsistent : IsConsistent approved_database
approved_database-IsConsistent =
    run_history-IsConsistent (first_of 5 applied_history) created_database
      ((λ e. refl), (tt, (tt, (tt, (tt, tt))))) created_database-IsConsistent

abbrev sample_discard : Discard
sample_discard = record { requested_by = 22; reason = 23; requested_at = 110 }

abbrev sample_approval : Approval
sample_approval = record { approved_by = 21; approved_at = 111 }

discards_waiting : (discard_template_run 110 2 11 sample_discard waiting_database).1 ≡ true
unfolding discard_template_run run_history perform record_template_run_status
    record_template_run_event begin_template_apply approve_template_run finish_template_plan
    create_plan_key record_template_run_step create_template_run start_run end_run
    end_workflow_execution
discards_waiting = refl

discard_template_run-final_example :
    (begin_template_apply 112 2 11 false 31
        (discard_template_run 110 2 11 sample_discard waiting_database).0
      ≡ ok ((discard_template_run 110 2 11 sample_discard waiting_database).0, false))
    × (approve_template_run 2 11 sample_approval
          (discard_template_run 110 2 11 sample_discard waiting_database).0
        ≡ err not_approvable)
discard_template_run-final_example =
    discard_template_run-final 110 2 11 sample_discard waiting_database 112 false 31 sample_approval
      waiting_database-IsConsistent discards_waiting

abbrev claimed_database : Database
claimed_database =
    committed_with approved_database (begin_template_apply 106 2 11 false 31 approved_database)

claims_approved :
    begin_template_apply 106 2 11 false 31 approved_database ≡ ok (claimed_database, true)
unfolding run_history perform record_template_run_status record_template_run_event
    begin_template_apply approve_template_run finish_template_plan create_plan_key
    record_template_run_step create_template_run start_run end_run end_workflow_execution
claims_approved = refl

begin_template_apply-final_example :
    discard_template_run 113 2 11 sample_discard claimed_database ≡ (claimed_database, false)
begin_template_apply-final_example =
    begin_template_apply-final 106 2 11 false 31 approved_database claimed_database 113
      sample_discard approved_database-IsConsistent claims_approved
