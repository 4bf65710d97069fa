-- ===== src/Queue/Timing.antt =====
-- The bounds of a controller's timings.
use tflive.Common.{
  ℕ, ◌+◌, ◌-◌, ◌*◌, ◌/◌, ◌^◌, ◌≤◌, ◌<◌, ltb, lt→ltb, true, ◌≡◌, max, arith, if◌then◌else◌,
}
use native.Mathlib.Nat.{div-mul-le_self, mul-le-mul_right, le-div_iff_mul-le}
use tflive.Queue.Controller.{Options, rounds, safe_item_timeout, clamped, with_defaults, filled}

safe_item_timeout-le :
    (lease batch_size workers : ℕ)
    → safe_item_timeout lease batch_size workers * rounds batch_size workers ≤ lease - lease / 6
unfolding safe_item_timeout
safe_item_timeout-le lease batch_size workers =
    div-mul-le_self (lease - lease / 6) (rounds batch_size workers)

clamped-le : (item_timeout safe : ℕ) → clamped item_timeout safe ≤ safe
clamped-le item_timeout safe = ground arith

pool-le-rounds :
    (n batch_size workers : ℕ)
    → 0 < workers
    → batch_size + workers ≤ 2 ^ 63
    → n * workers < batch_size + workers
    → n ≤ rounds batch_size workers
pool-le-rounds n batch_size workers some_worker fits h =
    let few : n ≤ (batch_size + workers - 1) / workers =
      (le-div_iff_mul-le some_worker).1 (omega arith) in
    at_least ((batch_size + workers - 1) / workers) few (lt→ltb _ _ (omega arith))
  where
    at_least :
        (r : ℕ)
        → n ≤ r
        → ltb (batch_size + workers - 1) (2 ^ 63) ≡ true
        → n ≤ (if ltb (batch_size + workers - 1) (2 ^ 63) then max r 1 else 1)
    at_least r few t = rw t (ground (arith, few))

-- Whatever options it is given, a controller whose lease is at least six nanoseconds and whose batch
-- size and workers fit an int together clamps its item timeout so that it fits the lease as often
-- as the workers must take an item for the batch: for every n that is at most the batch size over
-- the workers, rounded up, n item timeouts are less than the lease.
pub with_defaults-lease :
    (o : Options) (n : ℕ)
    → 6 ≤ (with_defaults o).lease
    → (with_defaults o).batch_size + (with_defaults o).workers ≤ 2 ^ 63
    → n * (with_defaults o).workers < (with_defaults o).batch_size + (with_defaults o).workers
    → n * (with_defaults o).item_timeout < (with_defaults o).lease
unfolding with_defaults
with_defaults-lease o n h fits few =
    let lease = (filled o).lease in
    let batch_size = (filled o).batch_size in
    let workers = (filled o).workers in
    let pool = rounds batch_size workers in
    let safe = safe_item_timeout lease batch_size workers in
    let timeout = clamped o.item_timeout safe in
    let some_worker : 0 < workers = ground arith in
    omega (
      arith,
      mul-le-mul_right timeout (pool-le-rounds n batch_size workers some_worker fits few),
      mul-le-mul_right pool (clamped-le o.item_timeout safe),
      safe_item_timeout-le lease batch_size workers,
      h,
    )
