-- ===== src/Tests/QueueTests.antt =====
-- A queue with one grant to reconcile, and instances of the queue's theorems.
use tflive.Common.{
  ℕ, ◌+◌, ◌*◌, ◌^◌, ◌<◌, ◌≤◌, Bool, true, false, ◌≡◌, refl, arith, [], ◌∷◌, none, some, find?, any,
}
use tflive.Common.Results.{ok}
use tflive.Queue.Specs.{reconcile, Request, SpecRegistry}
use tflive.Queue.Store.{
  WorkRow, WorkQueue, has_id, any_id, candidates, claim, complete, enqueue_resolved,
}
use tflive.Queue.Exclusion.{IsExclusive, enqueues, queue_step, queue_step-IsExclusive}
use tflive.Queue.Leases.{claim-claim, complete-enqueue_resolved}
use tflive.Queue.Controller.{Options, Controller, Failures, with_defaults, process}
use tflive.Queue.Delivery.{Settled, process-Settled}
use tflive.Queue.Timing.{with_defaults-lease}

abbrev grant_row : WorkRow
grant_row = record {
  id = 1;
  kind = 70;
  key = 71;
  payload = 72;
  revision = 1;
  actor_subject = 73;
  tenant_id = 2;
  available_at = 10;
  claimed_until = none;
  attempts = 0;
  last_error = 0;
  processed_at = none;
}

abbrev one_grant : WorkQueue
one_grant = record { rows = grant_row ∷ []; next_id = 2 }

one_grant-IsExclusive : IsExclusive one_grant
one_grant-IsExclusive = record {
  one_pending = λ kind key. ground arith;
  one_row = λ id. ground arith;
  numbered = (omega arith, tt);
}

abbrev grant_specs : SpecRegistry
grant_specs = record { kind = 70; mode = reconcile; has_key = true; key = λ payload. some 71 } ∷ []

abbrev newer_grant : Request
newer_grant = record { kind = 70; payload = 74; actor_subject = 73; tenant_id = 2 }

queue_step-IsExclusive_example :
    IsExclusive (queue_step 20 (enqueues grant_specs (newer_grant ∷ [])) one_grant)
queue_step-IsExclusive_example =
    queue_step-IsExclusive 20 (enqueues grant_specs (newer_grant ∷ [])) one_grant
      one_grant-IsExclusive

abbrev none_locked : ℕ → Bool
none_locked id = false

claims_grant :
    (claim 20 30 4 [] none_locked one_grant).1
    ≡ record grant_row { claimed_until = some 50; attempts = 1 } ∷ []
unfolding claim candidates
claims_grant = refl

claim-claim_example :
    any
      (any_id (claim 20 30 4 [] none_locked one_grant).1)
      (claim 49 30 4 [] none_locked (claim 20 30 4 [] none_locked one_grant).0).1
    ≡ false
claim-claim_example =
    claim-claim 20 30 4 [] none_locked 49 30 4 [] none_locked one_grant (omega arith)

complete-enqueue_resolved_example :
    complete 40 1 1 (
      enqueue_resolved 30
        (record {
          kind = 70;
          key = 71;
          mode = reconcile;
          payload = 74;
          actor_subject = 73;
          tenant_id = 2;
        })
        one_grant)
    ≡ (
      enqueue_resolved 30
          (record {
            kind = 70;
            key = 71;
            mode = reconcile;
            payload = 74;
            actor_subject = 73;
            tenant_id = 2;
          })
          one_grant,
      false,
    )
complete-enqueue_resolved_example =
    complete-enqueue_resolved 30 40 74 73 2 one_grant grant_row one_grant-IsExclusive refl refl

abbrev no_options : Options
no_options = record {
  poll_interval = 0;
  lease = 0;
  item_timeout = 0;
  base_backoff = 0;
  max_backoff = 0;
  prune_after = 0;
  prune_interval = 0;
  batch_size = 0;
  workers = 0;
}

default_lease : 6 ≤ (with_defaults no_options).lease
unfolding with_defaults
default_lease = omega arith

default_pool : (with_defaults no_options).batch_size + (with_defaults no_options).workers ≤ 2 ^ 63
unfolding with_defaults
default_pool = omega arith

one_round :
    1 * (with_defaults no_options).workers
    < (with_defaults no_options).batch_size + (with_defaults no_options).workers
unfolding with_defaults
one_round = omega arith

with_defaults-lease_example :
    1 * (with_defaults no_options).item_timeout < (with_defaults no_options).lease
with_defaults-lease_example = with_defaults-lease no_options 1 default_lease default_pool one_round

abbrev zero_random : ℕ → ℕ
zero_random n = 0

abbrev grant_controller : Controller
grant_controller = record {
  options = no_options;
  handlers = record { kind = 70; deliver = λ item. ok []; timings = none } ∷ [];
  specs = none;
  printed = λ e. 80;
  no_handler = 81;
  no_enqueuer = 82;
}

abbrev leased_grant : WorkRow
leased_grant = record grant_row { claimed_until = some 50; attempts = 1 }

abbrev leased_queue : WorkQueue
leased_queue = record { rows = leased_grant ∷ []; next_id = 2 }

-- A database on which nothing but the completion fails.
abbrev no_completion : Failures
no_completion = record {
  complete_fails = true;
  reschedule_fails = false;
  enqueue_fails = λ request. false;
}

process-Settled_example :
    (r : WorkRow) × (find?
        (has_id 1)
        (process 40 zero_random no_completion grant_controller leased_grant leased_queue).rows
      ≡ some r)
    × Settled no_completion grant_controller leased_grant (some 50) r
process-Settled_example =
    process-Settled 40 zero_random no_completion grant_controller leased_grant (some 50)
      leased_queue
      (record {
        one_pending = λ kind key. ground arith;
        one_row = λ id. ground arith;
        numbered = (omega arith, tt);
      })
      (record { row = leased_grant; found = refl; pending = refl; leased = refl })
