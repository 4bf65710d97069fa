-- ===== src/Queue/Controller.antt =====
-- internal/queue/controller.go: the options of a controller, its backoff, and the processing of one item on the queue
-- of Queue/Store. A duration is in nanoseconds, and an int64 that is not positive is 0 here. Random numbers are
-- arguments, and so are the failures of the database. A panic of a handler is an error of it.
use tflive.Common.{
  ℕ, ◌+◌, ◌-◌, ◌*◌, ◌/◌, ◌^◌, ◌==◌, ltb, leb, max, min, Bool, true, false, ◌||◌, List, [], ◌∷◌,
  Option, none, some, if◌then◌else◌, find?,
}
use tflive.Common.Results.{Result, ok, err}
use tflive.Domain.{Text, no_text}
use tflive.Queue.Specs.{Request, SpecError, SpecRegistry, resolve}
use tflive.Queue.Store.{WorkRow, WorkQueue, complete, reschedule, enqueue_resolved}

pub record Options : Type 0 where
  pub poll_interval : ℕ
  pub lease : ℕ
  pub item_timeout : ℕ
  pub base_backoff : ℕ
  pub max_backoff : ℕ
  pub prune_after : ℕ
  pub prune_interval : ℕ
  pub batch_size : ℕ
  pub workers : ℕ

abbrev second : ℕ
second = 1000000000

abbrev pub default_base_backoff : ℕ
default_base_backoff = second

abbrev pub default_max_backoff : ℕ
default_max_backoff = 300 * second

-- `leaseSafetyDivisor`.
abbrev lease_safety_divisor : ℕ
lease_safety_divisor = 6

-- How often the pool must run for a batch. An int is of 64 bits: a sum that it does not hold is negative, which counts as
-- one round.
abbrev pub rounds : ℕ → ℕ → ℕ
rounds batch_size workers =
    if ltb (batch_size + workers - 1) (2 ^ 63)
    then max ((batch_size + workers - 1) / workers) 1
    else 1

-- `safeItemTimeout`.
unfoldable pub safe_item_timeout : ℕ → ℕ → ℕ → ℕ
safe_item_timeout lease batch_size workers =
    (lease - lease / lease_safety_divisor) / rounds batch_size workers

-- A value that is not positive is the default.
abbrev pub or_default : ℕ → ℕ → ℕ
or_default n default = if n == 0 then default else n

-- The options before the item timeout.
abbrev pub filled : Options → Options
filled o = record {
  poll_interval = or_default o.poll_interval second;
  lease = or_default o.lease (30 * second);
  item_timeout = o.item_timeout;
  base_backoff = or_default o.base_backoff default_base_backoff;
  max_backoff = or_default o.max_backoff default_max_backoff;
  prune_after = or_default o.prune_after (86400 * second);
  prune_interval = or_default o.prune_interval (600 * second);
  batch_size = or_default o.batch_size (or_default o.workers 4);
  workers = or_default o.workers 4;
}

-- The item timeout that a safe one leaves: none is the safe one, and a longer one is clamped to it.
abbrev pub clamped : ℕ → ℕ → ℕ
clamped item_timeout safe =
    if item_timeout == 0 then safe else if ltb safe item_timeout then safe else item_timeout

-- `withDefaults`.
unfoldable pub with_defaults : Options → Options
with_defaults o = record (filled o) {
  item_timeout =
      clamped o.item_timeout
        (safe_item_timeout (filled o).lease (filled o).batch_size (filled o).workers);
}

-- The delay before jitter. A product that int64 does not hold becomes, on conversion, not positive or more than every
-- cap, and so the cap; the floating-point product of a base below 2^53 and a power of two is exact.
unfoldable pub backoff_delay : ℕ → ℕ → ℕ → ℕ
backoff_delay base max_backoff attempts =
    let delay = base * 2 ^ min (max attempts 1 - 1) 32 in
    if delay == 0 || ltb max_backoff delay then max_backoff else delay

-- The result of a jittered delay. A sum that int64 does not hold is negative, and so 0.
abbrev pub jittered : ℕ → ℕ → ℕ
jittered cap sum = if leb (2 ^ 63) sum then 0 else if ltb cap sum then cap else sum

-- `backoff`. `random n` is rand.Int63n(n).
unfoldable pub backoff : (ℕ → ℕ) → Options → ℕ → ℕ → ℕ
backoff random o attempts max_backoff =
    let cap = or_default max_backoff default_max_backoff in
    let delay = backoff_delay (or_default o.base_backoff default_base_backoff) cap attempts in
    jittered cap (delay + random (delay / 4 + 1))

-- A handler, with the cap of its `Timings` if it has one. An error is its text.
pub record Handler : Type 0 where
  pub kind : Text
  pub deliver : WorkRow → Result Text (List Request)
  pub timings : Option ℕ

-- `MaxBackoff` of the handler, or the controller's.
abbrev pub handler_backoff : Options → Handler → ℕ
handler_backoff o h = elim h.timings [ none ↦ o.max_backoff | some t ↦ or_default t o.max_backoff ]

abbrev pub handler_of : Text → Handler → Bool
handler_of kind h = h.kind == kind

-- Why a follow-up was not enqueued.
pub data EnqueueError : Type 0 where
  unresolved : SpecError → EnqueueError
  not_written : Request → EnqueueError

-- A controller that has a `printed` text for a failed enqueue, and for an unknown kind. `specs` is its enqueuer, a store
-- with specs.
pub record Controller : Type 0 where
  pub options : Options
  pub handlers : List Handler
  pub specs : Option SpecRegistry
  pub printed : EnqueueError → Text
  pub no_handler : Text
  pub no_enqueuer : Text

-- Which statements the database fails: such a statement writes nothing.
pub record Failures : Type 0 where
  pub complete_fails : Bool
  pub reschedule_fails : Bool
  pub enqueue_fails : Request → Bool

-- `enqueueRequests` on the pool: each follow-up is a statement of its own, and what is before a failure stays.
unfoldable pub enqueue_each :
    ℕ → (Request → Bool) → SpecRegistry → List Request → WorkQueue → WorkQueue × Option EnqueueError
enqueue_each now fails specs [] q = (q, none)
enqueue_each now fails specs (request ∷ requests) q = elim (resolve specs request) [
  | err e ↦ (q, some (unresolved e))
  | ok resolved ↦ elim (fails request) [
    | true ↦ (q, some (not_written request))
    | false ↦ enqueue_each now fails specs requests (enqueue_resolved now resolved q)
  ]
]

module _ (now : ℕ) (random : ℕ → ℕ) (db : Failures) (c : Controller) where
  -- `Reschedule`, whose error is only logged.
  abbrev try_reschedule : ℕ → ℕ → Text → WorkQueue → WorkQueue
  try_reschedule id delay last_error q =
      if db.reschedule_fails then q else reschedule now id delay last_error q

  -- `reschedule`, by the item's attempts.
  unfoldable pub retry : WorkRow → ℕ → Text → WorkQueue → WorkQueue
  retry item max_backoff last_error q =
      try_reschedule item.id (backoff random c.options item.attempts max_backoff) last_error q

  -- An item that a newer intent superseded is available at once.
  abbrev superseded : WorkRow → Bool → WorkQueue → WorkQueue
  superseded item done q = if done then q else try_reschedule item.id 0 no_text q

  -- The end of `process`: an item whose completion fails keeps its lease.
  unfoldable pub settle : WorkRow → WorkQueue → WorkQueue
  settle item q =
      if db.complete_fails
      then q
      else let (completed, done) = complete now item.id item.revision q in
        superseded item done completed

  -- What follows the enqueue of the follow-up work.
  unfoldable pub enqueued : WorkRow → ℕ → WorkQueue × Option EnqueueError → WorkQueue
  enqueued item max_backoff (q, some e) = retry item max_backoff (c.printed e) q
  enqueued item max_backoff (q, none) = settle item q

  unfoldable pub enqueue : WorkRow → ℕ → Option SpecRegistry → List Request → WorkQueue → WorkQueue
  enqueue item max_backoff none requests q = retry item max_backoff c.no_enqueuer q
  enqueue item max_backoff (some specs) requests q =
      enqueued item max_backoff (enqueue_each now db.enqueue_fails specs requests q)

  -- The follow-up work, if any, is enqueued before the item is settled.
  unfoldable pub follow_up : WorkRow → ℕ → List Request → WorkQueue → WorkQueue
  follow_up item max_backoff [] q = settle item q
  follow_up item max_backoff (request ∷ requests) q =
      enqueue item max_backoff c.specs (request ∷ requests) q

  unfoldable pub delivered : WorkRow → ℕ → Result Text (List Request) → WorkQueue → WorkQueue
  delivered item max_backoff (err text) q = retry item max_backoff text q
  delivered item max_backoff (ok requests) q = follow_up item max_backoff requests q

  -- An unknown kind is never dropped.
  unfoldable pub handled : WorkRow → Option Handler → WorkQueue → WorkQueue
  handled item none q = retry item default_max_backoff c.no_handler q
  handled item (some h) q = delivered item (handler_backoff c.options h) (h.deliver item) q

  unfoldable pub process : WorkRow → WorkQueue → WorkQueue
  process item q = handled item (find? (handler_of item.kind) c.handlers) q
