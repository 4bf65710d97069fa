-- ===== src/RunStore/Changes/Operations.antt =====
-- What any operation does to the table of runs.
use tflive.Common.{ℕ, ◌≡◌, refl, inl, inr, List, All}
use tflive.Common.Results.{ok, err}
use tflive.RunStore.Rows.{M, Run, Database}
use tflive.RunStore.Operations.{
  committed, committed_with, Operation, creates, records_status, records_step, records_event,
  finishes_plan, begins_apply, approves, discards, creates_plan_key, perform, FromWorkflow,
}
use tflive.RunStore.Soundness.{IsSound}
use tflive.RunStore.Changes.{Change, Update}
use tflive.RunStore.Changes.Progress.{
  record_template_run_status-Update, record_template_run_step-Update,
  record_template_run_event-Update, finish_template_plan-Update,
}
use tflive.RunStore.Changes.Claims.{
  begin_template_apply-Update, discard_template_run-Update, create_plan_key-Update,
  create_template_run-Change, approve_template_run-Update,
}

committed-Update :
    (db : Database) (m : M Database)
    → ((d : Database) → m ≡ ok d → Update db.runs d.runs)
    → Update db.runs (committed db m).runs
committed-Update db (ok d) h = h d refl
committed-Update db (err e) h = inl refl

committed_with-Update :
    {A : Type 0} (db : Database) (m : M (Database × A))
    → ((d : Database) (a : A) → m ≡ ok (d, a) → Update db.runs d.runs)
    → Update db.runs (committed_with db m).runs
committed_with-Update db (ok (d, a)) h = h d a refl
committed_with-Update db (err e) h = inl refl

-- An operation that creates no run.
abbrev pub CreatesNone : Operation → Type 0
CreatesNone (creates r) = ⊥
CreatesNone _ = Unit {0}

-- It leaves the table of runs, or writes one row of it along the lifecycle, whether it commits or
-- fails.
pub perform-Update :
    (now : ℕ) (op : Operation) (db : Database)
    → FromWorkflow op
    → CreatesNone op
    → All IsSound db.runs
    → Update db.runs (perform now op db).runs
unfolding perform
perform-Update now (creates r) db w none_created s = absurd none_created
perform-Update now (records_status input) db w _ s =
    committed-Update db _ (λ d. record_template_run_status-Update now input db w s)
perform-Update now (records_step tenant_id run_id step) db w _ s =
    committed-Update db _ (λ d. record_template_run_step-Update now tenant_id run_id step db s)
perform-Update now (records_event input) db w _ s =
    committed-Update db _ (λ d. record_template_run_event-Update now input db s)
perform-Update now (finishes_plan input) db w _ s =
    committed_with-Update db _ (λ d o. finish_template_plan-Update now input db s)
perform-Update now (begins_apply tenant_id run_id auto workflow_id) db w _ s =
    committed_with-Update db _
      (λ d c. begin_template_apply-Update now tenant_id run_id auto workflow_id db s)
perform-Update now (approves tenant_id run_id approval) db w _ s =
    committed-Update db _ (λ d. approve_template_run-Update tenant_id run_id approval db s)
perform-Update now (discards tenant_id run_id discard) db w _ s =
    discard_template_run-Update now tenant_id run_id discard db s
perform-Update now (creates_plan_key tenant_id run_id key) db w _ s =
    committed_with-Update db _ (λ d k. create_plan_key-Update tenant_id run_id key db s)

created-Change :
    (db : Database) (m : M (Database × ℕ))
    → ((d : Database) (n : ℕ) → m ≡ ok (d, n) → Change db.runs d.runs)
    → Change db.runs (committed_with db m).runs
created-Change db (ok (d, a)) h = h d a refl
created-Change db (err e) h = inl refl

widen : (runs runs' : List Run) → Update runs runs' → Change runs runs'
widen runs runs' (inl same) = inl same
widen runs runs' (inr w) = inr (inl w)

-- Every operation leaves the table of runs, writes one row of it along the lifecycle, or adds a queued
-- one, whether it commits or fails.
pub perform-Change :
    (now : ℕ) (op : Operation) (db : Database)
    → FromWorkflow op
    → All IsSound db.runs
    → Change db.runs (perform now op db).runs
unfolding perform
perform-Change now (creates r) db w s =
    created-Change db _ (λ d n. create_template_run-Change r db {run_number = n})
perform-Change now (records_status input) db w s =
    widen db.runs _ (perform-Update now (records_status input) db w tt s)
perform-Change now (records_step tenant_id run_id step) db w s =
    widen db.runs _ (perform-Update now (records_step tenant_id run_id step) db w tt s)
perform-Change now (records_event input) db w s =
    widen db.runs _ (perform-Update now (records_event input) db w tt s)
perform-Change now (finishes_plan input) db w s =
    widen db.runs _ (perform-Update now (finishes_plan input) db w tt s)
perform-Change now (begins_apply tenant_id run_id auto workflow_id) db w s =
    widen db.runs _ (perform-Update now (begins_apply tenant_id run_id auto workflow_id) db w tt s)
perform-Change now (approves tenant_id run_id approval) db w s =
    widen db.runs _ (perform-Update now (approves tenant_id run_id approval) db w tt s)
perform-Change now (discards tenant_id run_id discard) db w s =
    widen db.runs _ (perform-Update now (discards tenant_id run_id discard) db w tt s)
perform-Change now (creates_plan_key tenant_id run_id key) db w s =
    widen db.runs _ (perform-Update now (creates_plan_key tenant_id run_id key) db w tt s)
