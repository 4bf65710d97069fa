-- ===== src/Lib.antt =====
-- Verification of tflive (openplan), a control plane that plans and applies Terraform for the components of a stack.
--
-- A run of a stack template is created by the service, planned by a Temporal workflow, approved or discarded by a
-- person, and applied by a second workflow. The workflows reach the control plane's database through activities on the
-- control queue and tenant Terraform through activities on the execution queue, inside one executor session at a time.
-- Work for external systems is written to an outbox, the work queue, in the transaction that causes it, and a
-- controller delivers it.
--
-- The files and the code that they model:
-- - Domain: the types of internal/domain/template_run.go, workflow.go and stack_template.go that the rest shares. A
--   text is a number, 0 the empty text and 1 the object {}; the code only compares these texts.
-- - RunStore: internal/postgres. Rows has the tables; Executions is run_executions.go; Status is RecordTemplateRunStatus
--   and its helpers in repositories.go; Progress is run_progress.go; Plans is saved_plans.go and the approval; Create is
--   createTemplateRun and the plan keys. An operation is one transaction, from a database to a new one or an error;
--   the row locks of the code make transactions on a run sequential, and the model's operations are sequential.
--   Operations has one step for each, as internal/activities/control.go and internal/app/service.go call them.
--   Soundness, Lifecycle, Changes, History, Races and Snapshots are the invariants and their proofs.
-- - Workflow: internal/workflows/template_run.go and step.go. Calls has the activities with the answers they give,
--   Control the methods of run, Session those of session and inSession, Lifecycle the two workflows. A workflow is a
--   program of calls; an environment, any function, answers each call by the calls before it, so it stands for Temporal,
--   the executors and their failures. Safety says when a call is permitted and proves that every call is; Outcome how
--   a workflow ends.
-- - Concurrency: the workflows' calls as transactions of the store, interleaved.
-- - Queue: internal/queue/queue.go, registry.go and controller.go, and internal/postgres/workqueue.go. Specs resolves a
--   request, Store has the statements, Controller the options, the backoff and the processing of an item. A failing
--   statement writes nothing; which ones fail is an argument. Exclusion, Leases, Timing, Rows, Intents and Delivery are
--   the proofs.
-- - Authorization: internal/authorization. Vocabulary and Relations have identifiers, relations and grants, with texts as
--   lists of code points; Server what is asked of OpenFGA, a parameter; Checks is Can and CanAll, Grants ListGrants and
--   the keys of writes. Rendering, Batches, Paging, Listing, Sorting and Answers are the proofs.
-- - Access: internal/app/authorization.go and the pages of stacks of internal/postgres/repositories.go. Requests, Stacks
--   and Capabilities have the code; Pages, Questions, Visibility and Projection the proofs. Texts are ordered by code
--   points, in Go and in the database; the table of stacks does not change while it is listed.
-- - Roles: AssignStackRole and RevokeStackRole of internal/app/service.go over the tuples of their transaction, with what
--   OpenFGA does to them a parameter. Tuples, Owners and Rules are the proofs. A transaction runs alone: the reads of a
--   concurrent one are not modelled.
-- - Service: the commands of internal/app/service.go that start, approve and discard a run and that change the desired
--   state of a stack template, with their reads of internal/postgres/repositories.go, the guards of
--   internal/app/authorization.go and the states of internal/domain/stack_template.go. State has what they read and
--   write; encoding/json, the spelling of texts and the clock are arguments. Configs, Commands, Lookups, Runs and Desired
--   have the code, Steps one step for each command. A unit of work commits the run store, the audit events and the
--   queue together or not at all. A start, a
--   config change and an upgrade read one store and write a later one, which other transactions may have changed; the
--   reads of one command are of one store. An approval and a discard read and write the same store. Effects, Consents, Truth, Histories, Approvals,
--   Starts, Refusals, Carrying, Frozen, Moves and Vows are the proofs.
-- - Naming: slugs and workspace names of internal/app/service.go. Texts has the code with the lower case of a character
--   as an argument, Shapes the proofs.
-- - Tests: runs at concrete inputs, among them a run that is created, planned, approved and applied by both workflows,
--   and an instance of each theorem.
--
-- The loops over pages, of ListGrants and of the listing of stacks, take fuel: more rounds than there are continuation
-- tokens, or than there are stacks, are enough. All else is structural, and the workflows have no loops. Times and durations are natural
-- numbers; random numbers, clocks, row locks held by others and handlers are arguments. Cancellation of a workflow
-- is an error of the call that it interrupts.
--
-- Not modelled: the HTTP API, authentication, template registration, the creation of stacks, the installation of
-- templates and the credentials of the service, the executor's processes and files, encryption, and the reads that serve
-- lists. They are I/O or are not yet part of the development.
pub mod Common
pub mod Domain
pub mod RunStore
pub mod Workflow
pub mod Concurrency
pub mod Queue
pub mod Authorization
pub mod Access
pub mod Roles
pub mod Service
pub mod Naming
pub mod Tests
