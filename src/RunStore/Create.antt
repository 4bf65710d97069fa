-- ===== src/RunStore/Create.antt =====
-- internal/postgres/repositories.go: createTemplateRun, and saved_plans.go: the key of a saved plan.
use tflive.Common.{
  ℕ, ◌+◌, ◌==◌, max, Bool, true, false, ◌&&◌, ◌||◌, not, List, [], ◌∷◌, ◌++◌, Option, none, some,
  if◌then◌else◌, find?, replace, any,
}
use tflive.Common.Results.{ok, ◌>>=◌, ◌>>◌, guard, or_fail}
use tflive.Domain.{Text, no_text, empty_object, terminal}
use tflive.RunStore.Rows.{
  M, not_found, unique_violation, run_in_flight, Run, Database, in_flight, is_run,
}

-- `coalesce(max(run_number), 0)`, within the stack template.
abbrev pub max_run_number : Text → Text → List Run → ℕ
max_run_number tenant_id stack_template_id [] = 0
max_run_number tenant_id stack_template_id (r ∷ rs) =
    max
      (if r.tenant_id == tenant_id && r.stack_template_id == stack_template_id
        then r.run_number
        else 0)
      (max_run_number tenant_id stack_template_id rs)

-- `defaultJSON`.
abbrev pub default_json : Text → Text
default_json json = if json == no_text then empty_object else json

-- The row that the insert makes: no saved plan, approval, discard or execution.
abbrev pub inserted : Run → ℕ → Run
inserted r run_number = record r {
  config_json = default_json r.config_json;
  run_number = run_number;
  plan_artifact_dek = none;
  cancellation = none;
  approval = none;
  plan_execution = none;
  apply_execution = none;
}

-- The insert is the gate against concurrent runs: it fails where another run of the stack template
-- is in flight.
unfoldable pub create_template_run : Run → Database → M (Database × ℕ)
create_template_run r db = do
  guard (not (any (λ x. x.id == r.id) db.runs)) unique_violation
  guard (terminal r.status || not (any (in_flight r.tenant_id r.stack_template_id) db.runs))
      run_in_flight
  let run_number = max_run_number r.tenant_id r.stack_template_id db.runs + 1
  ok (record db { runs = db.runs ++ inserted r run_number ∷ [] }, run_number)

-- `PlanKey`, the key as it is stored: the cipher that wraps it is not modelled. `none` is no plan key.
unfoldable pub plan_key : Text → Text → Database → M (Option Text)
plan_key tenant_id run_id db = do
  r ← or_fail (find? (is_run tenant_id run_id) db.runs) not_found
  ok r.plan_artifact_dek

abbrev pub takes_plan_key : Text → Text → Run → Bool
takes_plan_key tenant_id run_id r =
    is_run tenant_id run_id r
    && (elim r.plan_artifact_dek [ none ↦ true | some _ ↦ false ])
    && not (terminal r.status)

abbrev pub store_plan_key : Text → Text → Text → Database → Run → Database × Option Text
store_plan_key tenant_id run_id key db r = (
  record db {
    runs =
        replace (takes_plan_key tenant_id run_id) (record r { plan_artifact_dek = some key })
          db.runs;
  },
  some key,
)

-- The update fills an empty column only.
unfoldable pub fill_plan_key : Text → Text → Text → Database → Database × Option Text
fill_plan_key tenant_id run_id key db = elim (find? (takes_plan_key tenant_id run_id) db.runs) [
  | none ↦ (db, none)
  | some r ↦ store_plan_key tenant_id run_id key db r
]

-- `CreatePlanKey`, with the fresh key as an argument: a run that has a key keeps it, and a terminal
-- run gets none. No other transaction comes between its statements.
unfoldable pub create_plan_key : Text → Text → Text → Database → M (Database × Option Text)
unfolding plan_key fill_plan_key
create_plan_key tenant_id run_id key db = do
  existing ← plan_key tenant_id run_id db
  elim existing [ some k ↦ ok (db, some k) | none ↦ ok (fill_plan_key tenant_id run_id key db) ]
