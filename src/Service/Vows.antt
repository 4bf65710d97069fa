-- ===== src/Service/Vows.antt =====
-- Desired state under the commands of the service, and the plans that wait for approval.
use mathlib.Core.Path.{ap₂}
use tflive.Common.{
  ℕ, ◌+◌, ◌==◌, true, false, ◌||◌, not, ◌≡◌, ◌≢◌, refl, sym, ap, ◌∙◌, arith, List, [], ◌∷◌, ◌++◌,
  some, any, find?, find?-test, All, All-find?, All-append, subst, ==-refl, ==_iff,
}
use tflive.Common.Results.{ok-eq-ok, ok, err, guard, >>=-eq-ok}
use tflive.Domain.{no_text, terminal}
use tflive.RunStore.Rows.{
  Run, StackTemplate, Database, in_flight, is_stack_template, unique_violation, run_in_flight,
}
use tflive.RunStore.Create.{create_template_run, inserted, default_json, max_run_number}
use tflive.RunStore.Operations.{FromWorkflow, perform, approves, discards, committed}
use tflive.RunStore.Changes.Operations.{CreatesNone}
use tflive.RunStore.History.{IsConsistent, has_id}
use tflive.RunStore.Snapshots.{Recorded}
use tflive.Service.Approvals.{named}
use tflive.Access.Requests.{Caller}
use tflive.Service.State.{Deployment, Arrival, ServiceStore, Served}
use tflive.Service.Configs.{desired_config, plan_state, matches_desired, same_json_config}
use tflive.Service.Commands.{StartTemplateRunCommand, ApproveRunCommand, DiscardRunCommand}
use tflive.Service.Runs.{
  start_template_run, approve_run_command, discard_run_command, new_run, plan_current,
}
use tflive.Service.Desired.{update_stack_template_config, upgrade_stack_template}
use tflive.Service.Steps.{
  Step, starts_run, approves_run, discards_run, updates_config, upgrades, controls, settled,
  settled_with, serve, Event, serve_all,
}
use tflive.Service.Effects.{start_template_run-Started}
use tflive.Service.Consents.{approve_run_command-Approved}
use tflive.Service.Truth.{IsTrue, discard-performed}
use tflive.Service.Histories.{Permitted, serve-IsTrue}
use tflive.Service.Starts.{desired_config_settled, operable_stack_template-eq-ok}
use tflive.Service.Frozen.{Agrees, Current, IsFrozen, perform-IsFrozen}
use tflive.Service.Moves.{
  desired_of, desired_of-find?, desired_of-Agrees, is_stack_template-eq, update-IsFrozen,
  upgrade-IsFrozen,
}

create_template_run-added :
    (r : Run) (db : Database) {db' : Database} {n : ℕ}
    → create_template_run r db ≡ ok (db', n)
    → (m : ℕ) × (record db { runs = db.runs ++ inserted r m ∷ [] } ≡ db')
unfolding create_template_run
create_template_run-added r db e =
    let fresh = not (any (λ x. x.id == r.id) db.runs) in
    let alone =
      terminal r.status || not (any (in_flight r.tenant_id r.stack_template_id) db.runs) in
    let (_, _, e1) = >>=-eq-ok (guard fresh unique_violation) _ e in
    let (_, _, e2) = >>=-eq-ok (guard alone run_in_flight) _ e1 in
    let run_number = max_run_number r.tenant_id r.stack_template_id db.runs + 1 in
    (run_number, ap (λ p. p.0) (ok-eq-ok _ refl e2))

start-IsFrozen :
    (d : Deployment) (arrival : Arrival) (caller : Caller) (command : StartTemplateRunCommand)
    (seen store : ServiceStore) {after : ServiceStore} {r : Run}
    → start_template_run d arrival caller command seen store ≡ ok (after, r)
    → desired_of command.tenant_id command.stack_template_id store.database
      ≡ desired_of command.tenant_id command.stack_template_id seen.database
    → IsFrozen store.database
    → IsFrozen after.database
start-IsFrozen d arrival caller command seen store e unmoved frozen =
    let db = store.database in
    let x = start_template_run-Started d arrival caller command seen store e in
    let s = x.stack_template in
    let made = new_run d arrival x.actor command s x.revision in
    let (n, added) = create_template_run-added made db x.created in
    let (belongs, _) =
      operable_stack_template-eq-ok d caller x.actor command.tenant_id command.stack_template_id
        seen.database x.operable in
    let (revision, config) =
      desired_of-Agrees command.tenant_id command.stack_template_id frozen.desired db
        (unmoved
          ∙ desired_of-find? command.tenant_id command.stack_template_id seen.database belongs)
        frozen.agrees in
    subst IsFrozen added (record {
      desired = frozen.desired;
      agrees = frozen.agrees;
      current =
          All-append (Current frozen.desired) db.runs (inserted made n ∷ []) frozen.current
            (λ unfinished. (revision, desired_config_settled s ∙ config), tt);
    })

approve-IsFrozen :
    (d : Deployment) (arrival : Arrival) (caller : Caller) (command : ApproveRunCommand)
    (store : ServiceStore) {after : ServiceStore}
    → approve_run_command d arrival caller command store ≡ ok after
    → IsConsistent store.database
    → IsFrozen store.database
    → IsFrozen after.database
unfolding perform
approve-IsFrozen d arrival caller command store e c frozen =
    let a = approve_run_command-Approved d arrival caller command store e in
    let op =
      approves command.tenant_id command.run_id
        (record { approved_by = d.number a.actor; approved_at = arrival.now }) in
    subst IsFrozen (ap (committed store.database) a.approved)
      (perform-IsFrozen arrival.now op store.database tt tt c frozen)

discard-IsFrozen :
    (d : Deployment) (arrival : Arrival) (caller : Caller) (command : DiscardRunCommand)
    (store : ServiceStore) {after : ServiceStore}
    → discard_run_command d arrival caller command store ≡ ok after
    → IsConsistent store.database
    → IsFrozen store.database
    → IsFrozen after.database
discard-IsFrozen d arrival caller command store e c frozen =
    let (discard, performed) = discard-performed d arrival caller command store e in
    subst IsFrozen performed (
      perform-IsFrozen arrival.now (discards command.tenant_id command.run_id discard)
        store.database tt tt c frozen)

settled-IsFrozen :
    (store : ServiceStore) (r : Served ServiceStore)
    → ((after : ServiceStore) → r ≡ ok after → IsFrozen after.database)
    → IsFrozen store.database
    → IsFrozen (settled store r).database
settled-IsFrozen store (err f) succeeds h = h
settled-IsFrozen store (ok after) succeeds h = succeeds after refl

settled_with-IsFrozen :
    {A : Type 0} (store : ServiceStore) (r : Served (ServiceStore × A))
    → ((after : ServiceStore) (a : A) → r ≡ ok (after, a) → IsFrozen after.database)
    → IsFrozen store.database
    → IsFrozen (settled_with store r).database
settled_with-IsFrozen store (err f) succeeds h = h
settled_with-IsFrozen store (ok (after, a)) succeeds h = succeeds after a refl

-- The workflows create no run.
abbrev pub Bound : Step → Type 0
Bound (controls op) = FromWorkflow op × CreatesNone op
Bound _ = Unit {0}

Bound-Permitted : (step : Step) → Bound step → Permitted step
Bound-Permitted (controls op) b = b.0
Bound-Permitted (starts_run command seen) b = tt
Bound-Permitted (approves_run command) b = tt
Bound-Permitted (discards_run command) b = tt
Bound-Permitted (updates_config command seen) b = tt
Bound-Permitted (upgrades command seen) b = tt

-- Between what a command reads and what it writes, other transactions did not move the desired state that a start
-- read, and began no run of a stack template that had none in flight for a change of its desired state.
abbrev pub Undisturbed : Step → ServiceStore → Type 0
Undisturbed (starts_run command seen) store =
    desired_of command.tenant_id command.stack_template_id store.database
    ≡ desired_of command.tenant_id command.stack_template_id seen.database
Undisturbed (updates_config command seen) store =
    any (in_flight command.tenant_id command.stack_template_id) store.database.runs ≡ true
    → any (in_flight command.tenant_id command.stack_template_id) seen.database.runs ≡ true
Undisturbed (upgrades command seen) store =
    any (in_flight command.tenant_id command.stack_template_id) store.database.runs ≡ true
    → any (in_flight command.tenant_id command.stack_template_id) seen.database.runs ≡ true
Undisturbed _ store = Unit {0}

abbrev pub AllUndisturbed : Deployment → List Event → ServiceStore → Type 0
AllUndisturbed d [] store = Unit {0}
AllUndisturbed d (e ∷ events) store =
    Undisturbed e.step store × AllUndisturbed d events (serve d e.arrival e.caller e.step store)

serve-IsFrozen :
    (d : Deployment) (arrival : Arrival) (caller : Caller) (step : Step) (store : ServiceStore)
    → Bound step
    → Undisturbed step store
    → IsConsistent store.database
    → IsFrozen store.database
    → IsFrozen (serve d arrival caller step store).database
unfolding serve
serve-IsFrozen d arrival caller (starts_run command seen) store b u c h =
    settled_with-IsFrozen store (start_template_run d arrival caller command seen store)
      (λ after r e. start-IsFrozen d arrival caller command seen store e u h) h
serve-IsFrozen d arrival caller (approves_run command) store b u c h =
    settled-IsFrozen store (approve_run_command d arrival caller command store)
      (λ after e. approve-IsFrozen d arrival caller command store e c h) h
serve-IsFrozen d arrival caller (discards_run command) store b u c h =
    settled-IsFrozen store (discard_run_command d arrival caller command store)
      (λ after e. discard-IsFrozen d arrival caller command store e c h) h
serve-IsFrozen d arrival caller (updates_config command seen) store b u c h =
    settled_with-IsFrozen store (update_stack_template_config d caller command seen store)
      (λ after s e. update-IsFrozen d caller command seen store {s = s} e u h) h
serve-IsFrozen d arrival caller (upgrades command seen) store b u c h =
    settled_with-IsFrozen store (upgrade_stack_template d caller command seen store)
      (λ after s e. upgrade-IsFrozen d caller command seen store {s = s} e u h) h
serve-IsFrozen d arrival caller (controls op) store b u c h =
    perform-IsFrozen arrival.now op store.database b.0 b.1 c h

-- A history of service commands and of operations by the workflows, which create no run and record
-- running only for the plan phase, keeps each run that is not over at the desired revision and config
-- of its stack template, if at first that is so, the runs are consistent and the snapshots true, and no
-- other step comes at a bad time between the reads and the write of a command: at the write of a
-- start, the desired state of its stack template is the one that it read, and at that of a config
-- change or upgrade, a run of its stack template is in flight only if one was when it read the runs.
-- Nothing else is asked of what a command read.
pub serve_all-IsFrozen :
    (d : Deployment) (events : List Event) (store : ServiceStore)
    → All (λ e. Bound e.step) events
    → AllUndisturbed d events store
    → IsTrue store.database
    → IsFrozen store.database
    → IsFrozen (serve_all d events store).database
unfolding serve_all
serve_all-IsFrozen d [] store b u t h = h
serve_all-IsFrozen d (e ∷ events) store b u t h =
    serve_all-IsFrozen d events (serve d e.arrival e.caller e.step store) b.1 u.1
      (serve-IsTrue d e.arrival e.caller e.step store (Bound-Permitted e.step b.0) t)
      (serve-IsFrozen d e.arrival e.caller e.step store b.0 u.0 t.consistent h)

plan_current-same :
    (d : Deployment) (r : Run) (s : StackTemplate) (value : ℕ)
    → r.id ≢ no_text
    → s.pending_plan_run_id ≡ r.id
    → s.pending_plan_template_revision_id ≡ s.desired_template_revision_id
    → s.pending_plan_config_json ≡ some r.config_json
    → r.config_json ≡ desired_config s
    → d.json.parse (default_json r.config_json) ≡ some value
    → plan_current d r s ≡ true
unfolding plan_state matches_desired same_json_config desired_config
plan_current-same d r s value some_run pending revision config desired parsed =
    let here : (s.pending_plan_run_id == r.id) ≡ true =
      (==_iff s.pending_plan_run_id r.id).1 pending in
    let some_plan : (s.pending_plan_run_id == no_text) ≡ false =
      ground (arith, some_run, pending) in
    let known : (s.pending_plan_template_revision_id == s.desired_template_revision_id) ≡ true =
      (==_iff s.pending_plan_template_revision_id s.desired_template_revision_id).1 revision in
    let equal : same_json_config d.json r.config_json (desired_config s) ≡ true =
      rw (sym desired) (rw parsed (==-refl value)) in
    rw (here, some_plan, known, config, equal) refl

-- On a store with consistent runs and true snapshots, where each run that is not over has the desired
-- revision and config of its stack template: if the template of such a run names the run for its
-- pending plan, the run's identifier is not empty and its config is JSON, then the plan is current,
-- and ApproveRun does not refuse it as stale.
pub plan_current-frozen :
    (d : Deployment) (db : Database) (r : Run) (s : StackTemplate) (value : ℕ)
    → IsTrue db
    → IsFrozen db
    → find? (has_id r.id) db.runs ≡ some r
    → find? (is_stack_template r.tenant_id r.stack_template_id) db.stack_templates ≡ some s
    → terminal r.status ≡ false
    → r.id ≢ no_text
    → s.pending_plan_run_id ≡ r.id
    → d.json.parse (default_json r.config_json) ≡ some value
    → plan_current d r s ≡ true
plan_current-frozen d db r s value true_store frozen stored belongs unfinished some_run pending
      parsed =
    let test = is_stack_template r.tenant_id r.stack_template_id in
    let recorded =
      All-find? (Recorded db.runs) test db.stack_templates true_store.recorded belongs in
    let agrees = All-find? (Agrees frozen.desired) test db.stack_templates frozen.agrees belongs in
    let (revision, config) =
      All-find? (Current frozen.desired) (has_id r.id) db.runs frozen.current stored unfinished in
    let (tenant, name) =
      is_stack_template-eq r.tenant_id r.stack_template_id s
        (find?-test test db.stack_templates belongs) in
    let same = ap₂ frozen.desired tenant name in
    let (same_revision, same_config) =
      named db.runs s.pending_plan_run_id _ _ r (λ none_run. some_run (sym pending ∙ none_run))
        (ap (λ id. find? (has_id id) db.runs) pending ∙ stored) recorded.0 in
    plan_current-same d r s value some_run pending
      (same_revision ∙ revision ∙ sym (ap (λ p. p.0) same) ∙ sym agrees.0) same_config
      (config ∙ sym (ap (λ p. p.1) same) ∙ sym agrees.1) parsed
