-- ===== src/Service/Histories.antt =====
-- The run store under any history of service commands and workflow operations.
use tflive.Common.{◌≡◌, refl, List, [], ◌∷◌, All}
use tflive.Common.Results.{ok, err}
use tflive.RunStore.Operations.{FromWorkflow}
use tflive.Access.Requests.{Caller}
use tflive.Service.State.{Served, Deployment, Arrival, ServiceStore}
use tflive.Service.Runs.{start_template_run, approve_run_command, discard_run_command}
use tflive.Service.Desired.{update_stack_template_config, upgrade_stack_template}
use tflive.Service.Steps.{
  Step, starts_run, approves_run, discards_run, updates_config, upgrades, controls, settled,
  settled_with, serve, Event, serve_all,
}
use tflive.Service.Truth.{
  IsTrue, perform-IsTrue, start-IsTrue, approve-IsTrue, discard-IsTrue, update-IsTrue,
  upgrade-IsTrue,
}

settled-IsTrue :
    (store : ServiceStore) (r : Served ServiceStore)
    → ((after : ServiceStore) → r ≡ ok after → IsTrue after.database)
    → IsTrue store.database
    → IsTrue (settled store r).database
settled-IsTrue store (err f) succeeds h = h
settled-IsTrue store (ok after) succeeds h = succeeds after refl

settled_with-IsTrue :
    {A : Type 0} (store : ServiceStore) (r : Served (ServiceStore × A))
    → ((after : ServiceStore) (a : A) → r ≡ ok (after, a) → IsTrue after.database)
    → IsTrue store.database
    → IsTrue (settled_with store r).database
settled_with-IsTrue store (err f) succeeds h = h
settled_with-IsTrue store (ok (after, a)) succeeds h = succeeds after a refl

-- The control activities record running only for the plan phase.
abbrev pub Permitted : Step → Type 0
Permitted (controls op) = FromWorkflow op
Permitted _ = Unit {0}

pub serve-IsTrue :
    (d : Deployment) (arrival : Arrival) (caller : Caller) (step : Step) (store : ServiceStore)
    → Permitted step
    → IsTrue store.database
    → IsTrue (serve d arrival caller step store).database
unfolding serve
serve-IsTrue d arrival caller (starts_run command seen) store p h =
    settled_with-IsTrue store (start_template_run d arrival caller command seen store)
      (λ after r e. start-IsTrue d arrival caller command seen store e h) h
serve-IsTrue d arrival caller (approves_run command) store p h =
    settled-IsTrue store (approve_run_command d arrival caller command store)
      (λ after e. approve-IsTrue d arrival caller command store e h) h
serve-IsTrue d arrival caller (discards_run command) store p h =
    settled-IsTrue store (discard_run_command d arrival caller command store)
      (λ after e. discard-IsTrue d arrival caller command store e h) h
serve-IsTrue d arrival caller (updates_config command seen) store p h =
    settled_with-IsTrue store (update_stack_template_config d caller command seen store)
      (λ after s e. update-IsTrue d caller command seen store {s = s} e h) h
serve-IsTrue d arrival caller (upgrades command seen) store p h =
    settled_with-IsTrue store (upgrade_stack_template d caller command seen store)
      (λ after s e. upgrade-IsTrue d caller command seen store {s = s} e h) h
serve-IsTrue d arrival caller (controls op) store p h =
    perform-IsTrue arrival.now op store.database _ p refl h

-- Any history of service commands, each by its caller and at its time, and of operations by the
-- workflows, which record running only for the plan phase, keeps the store true, whichever of them
-- fail and whatever store a start, a config change or an upgrade read before it writes: the table of runs stays consistent, and the pending and the applied snapshot of every stack
-- template each name no run or have the revision and the config of the stored run that they name.
pub serve_all-IsTrue :
    (d : Deployment) (events : List Event) (store : ServiceStore)
    → All (λ e. Permitted e.step) events
    → IsTrue store.database
    → IsTrue (serve_all d events store).database
unfolding serve_all
serve_all-IsTrue d [] store p h = h
serve_all-IsTrue d (e ∷ events) store p h =
    serve_all-IsTrue d events (serve d e.arrival e.caller e.step store) p.1
      (serve-IsTrue d e.arrival e.caller e.step store p.0 h)
