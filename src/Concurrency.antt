-- ===== src/Concurrency.antt =====
-- The two workflows and the service on one database: the control calls of internal/workflows/template_run.go
-- reach the store through internal/activities/control.go, in any order with those of other workflows and of
-- the service (internal/app/service.go).
use tflive.Common.{
  ℕ, Bool, true, ◌≡◌, refl, arith, ◌&&◌, List, [], ◌∷◌, ◌++◌, Option, none, some, if◌then◌else◌,
  All, All-append, All-map, Bool-cases, inl, inr,
}
use tflive.Domain.{Text, no_text}
use tflive.RunStore.Rows.{Database}
use tflive.RunStore.Operations.{
  Operation, creates, records_status, records_step, records_event, finishes_plan, begins_apply,
  approves, discards, creates_plan_key, FromWorkflow, run_history,
}
use tflive.RunStore.History.{IsConsistent, AllFromWorkflow, run_history-IsConsistent}
use tflive.Workflow.Calls.{
  WorkflowInput, Failure, Call, record_status, record_step, record_event, finish_plan, begin_apply,
  seal_plan_key, Trace, Environment,
}
use tflive.Workflow.Lifecycle.{template_plan_workflow, template_apply_workflow}
use tflive.Workflow.Safety.{lawful, permitted}
use tflive.Workflow.Safety.Workflows.{template_plan_workflow-lawful, template_apply_workflow-lawful}

-- What Temporal adds to a call: the workflow's identifier, the time of the transaction, whether the transaction of a
-- call was begun at all (one that fails may have committed or not), the printed error and the fresh plan key.
pub record Delivery : Type 0 where
  pub workflow_id : Text
  pub now : Trace → ℕ
  pub begun : Call → Trace → Bool
  pub printed : Failure → Text
  pub fresh_key : Trace → Text

abbrev pub printed_summary : Delivery → Option Failure → Text
printed_summary d none = no_text
printed_summary d (some e) = d.printed e

-- The transaction of a control activity's call, if it has one: `ControlActivities` of internal/activities/control.go.
abbrev pub control_operation : Delivery → WorkflowInput → Call → Trace → Option Operation
control_operation d input (record_status status summary phase) t = some (
    records_status (record {
      run_id = input.run_id;
      tenant_id = input.tenant_id;
      stack_template_id = input.stack_template_id;
      operation = input.operation;
      status = status;
      error_summary = printed_summary d summary;
      phase = phase;
      workflow_id = d.workflow_id;
    }))
control_operation d input (record_step step) t =
    some (records_step input.tenant_id input.run_id step)
control_operation d input (record_event event summary) t = some (
    records_event (record {
      run_id = input.run_id;
      tenant_id = input.tenant_id;
      stack_template_id = input.stack_template_id;
      operation = input.operation;
      event = event;
      summary = summary;
    }))
control_operation d input (finish_plan has_changes summary) t = some (
    finishes_plan (record {
      tenant_id = input.tenant_id;
      run_id = input.run_id;
      stack_template_id = input.stack_template_id;
      operation = input.operation;
      has_changes = has_changes;
      summary = summary;
    }))
control_operation d input (begin_apply auto_approve) t =
    some (begins_apply input.tenant_id input.run_id auto_approve d.workflow_id)
control_operation d input (seal_plan_key public_key true) t =
    some (creates_plan_key input.tenant_id input.run_id (d.fresh_key t))
control_operation d input _ t = none

-- A workflow's transactions, oldest first.
abbrev pub transactions : Delivery → WorkflowInput → Trace → List (ℕ × Operation)
transactions d input [] = []
transactions d input ((c, _) ∷ t) = transactions d input t ++ elim (control_operation d input c t) [
  | none ↦ []
  | some op ↦ if d.begun c t then (d.now t, op) ∷ [] else []
]

-- An order of two sequences of steps in one.
pub data Shuffle {A : Type 0} : List A → List A → List A → Type 0 where
  neither : Shuffle [] [] []
  left : {a : A} {xs ys zs : List A} → Shuffle xs ys zs → Shuffle (a ∷ xs) ys (a ∷ zs)
  right : {b : A} {xs ys zs : List A} → Shuffle xs ys zs → Shuffle xs (b ∷ ys) (b ∷ zs)

All-Shuffle :
    {A : Type 0} (P : A → Type 0) {xs ys zs : List A}
    → Shuffle xs ys zs
    → All P xs
    → All P ys
    → All P zs
All-Shuffle P neither p q = p
All-Shuffle P (left s) p q = (p.0, All-Shuffle P s p.1 q)
All-Shuffle P (right s) p q = (q.0, All-Shuffle P s p q.1)

∧-eq : (a b : Bool) → (a && b) ≡ true → (a ≡ true) × (b ≡ true)
∧-eq a b e = ground arith

permitted-FromWorkflow :
    (d : Delivery) (input : WorkflowInput) (c : Call) (t : Trace) (op : Operation)
    → control_operation d input c t ≡ some op
    → permitted input c t ≡ true
    → FromWorkflow op
permitted-FromWorkflow d input c t op e p = ground arith

transactions-AllFromWorkflow :
    (d : Delivery) (input : WorkflowInput) (t : Trace)
    → lawful input t ≡ true
    → AllFromWorkflow (transactions d input t)
transactions-AllFromWorkflow d input [] l = tt
transactions-AllFromWorkflow d input ((c, b) ∷ t) l =
    let (now_permitted, before) = ∧-eq (permitted input c t) (lawful input t) l in
    All-append (λ p. FromWorkflow p.1) (transactions d input t) _
      (transactions-AllFromWorkflow d input t before)
      (newest now_permitted (control_operation d input c t) refl)
  where
    newest :
        permitted input c t ≡ true
        → (o : Option Operation) → control_operation d input c t ≡ o
        → AllFromWorkflow
            (elim o [ none ↦ [] | some op ↦ if d.begun c t then (d.now t, op) ∷ [] else [] ])
    newest y none e = tt
    newest p (some op) e = elim (Bool-cases (d.begun c t)) [
      | inl y ↦ rw y (permitted-FromWorkflow d input c t op e p, tt)
      | inr n ↦ rw n tt
    ]

-- What the service performs: it creates, approves and discards runs.
abbrev pub FromService : Operation → Type 0
FromService (creates r) = Unit {0}
FromService (approves tenant_id run_id approval) = Unit {0}
FromService (discards tenant_id run_id discard) = Unit {0}
FromService _ = ⊥

FromService-FromWorkflow : (op : Operation) → FromService op → FromWorkflow op
FromService-FromWorkflow (creates r) f = tt
FromService-FromWorkflow (approves tenant_id run_id approval) f = tt
FromService-FromWorkflow (discards tenant_id run_id discard) f = tt
FromService-FromWorkflow (records_status input) f = absurd f
FromService-FromWorkflow (records_step tenant_id run_id step) f = absurd f
FromService-FromWorkflow (records_event input) f = absurd f
FromService-FromWorkflow (finishes_plan input) f = absurd f
FromService-FromWorkflow (begins_apply tenant_id run_id auto_approve workflow_id) f = absurd f
FromService-FromWorkflow (creates_plan_key tenant_id run_id key) f = absurd f

-- The transactions of any number of workflows and of the service, in an order in which they may commit.
pub data Interleaved : List (ℕ × Operation) → Type 0 where
  idle : Interleaved []
  plan_workflow :
      (env : Environment) (d : Delivery) (input : WorkflowInput) {ops ops' : List (ℕ × Operation)}
      → Interleaved ops
      → Shuffle (transactions d input (template_plan_workflow env input []).1) ops ops'
      → Interleaved ops'
  apply_workflow :
      (env : Environment) (d : Delivery) (input : WorkflowInput) {ops ops' : List (ℕ × Operation)}
      → Interleaved ops
      → Shuffle (transactions d input (template_apply_workflow env input []).1) ops ops'
      → Interleaved ops'
  service :
      (calls : List (ℕ × Operation)) {ops ops' : List (ℕ × Operation)}
      → All (λ p. FromService p.1) calls
      → Interleaved ops
      → Shuffle calls ops ops'
      → Interleaved ops'

Interleaved-AllFromWorkflow : {ops : List (ℕ × Operation)} → Interleaved ops → AllFromWorkflow ops
Interleaved-AllFromWorkflow idle = tt
Interleaved-AllFromWorkflow (plan_workflow env d input i s) =
    let lawfully = (template_plan_workflow-lawful env input).0 in
    All-Shuffle (λ p. FromWorkflow p.1) s
      (transactions-AllFromWorkflow d input (template_plan_workflow env input []).1 lawfully)
      (Interleaved-AllFromWorkflow i)
Interleaved-AllFromWorkflow (apply_workflow env d input i s) =
    let lawfully = (template_apply_workflow-lawful env input).0 in
    All-Shuffle (λ p. FromWorkflow p.1) s
      (transactions-AllFromWorkflow d input (template_apply_workflow env input []).1 lawfully)
      (Interleaved-AllFromWorkflow i)
Interleaved-AllFromWorkflow (service calls f i s) =
    All-Shuffle (λ p. FromWorkflow p.1) s (All-map calls (λ p g. FromService-FromWorkflow p.1 g) f)
      (Interleaved-AllFromWorkflow i)

-- Any number of plan and apply workflows and calls of the service, on any runs, in any environments, with their
-- transactions in any interleaving and any of them missing, keep a consistent table of runs consistent: every run
-- stays sound, no stack template gets two runs in flight, and no identifier two rows.
pub run_history-Interleaved :
    (ops : List (ℕ × Operation)) (db : Database)
    → Interleaved ops
    → IsConsistent db
    → IsConsistent (run_history ops db)
run_history-Interleaved ops db i c =
    run_history-IsConsistent ops db (Interleaved-AllFromWorkflow i) c
