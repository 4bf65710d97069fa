-- ===== src/Queue/Delivery.antt =====
-- What the processing of a claimed item leaves in the queue.
use tflive.Common.{
  ℕ, ◌+◌, Bool, true, false, ◌≡◌, refl, arith, ◌∙◌, List, [], ◌∷◌, Option, some, none,
  if◌then◌else◌, ◌||◌, find?, update_where, Bool-cases, inl, inr,
}
use tflive.Common.Results.{Result, ok, err}
use tflive.Domain.{Text, no_text}
use tflive.Queue.Specs.{Request, SpecRegistry}
use tflive.Queue.Store.{
  WorkRow, WorkQueue, has_id, is_pending, complete, completes, completed, reschedule, rescheduled,
}
use tflive.Queue.Exclusion.{IsExclusive}
use tflive.Queue.Controller.{
  Controller, Handler, Failures, EnqueueError, enqueue_each, handler_of, handler_backoff,
  default_max_backoff, backoff, retry, settle, enqueued, enqueue, follow_up, delivered, handled,
  process,
}
use tflive.Queue.Rows.{Row, find?-update_where, any-completes, reschedule-find?, enqueue_each-Row}

-- How an item is settled: it waits for a claim, its handler delivered it at the revision that was claimed, or the
-- database failed and its lease stands.
pub data Settled (db : Failures) (c : Controller) (item : WorkRow) (lease : Option ℕ)
    : WorkRow → Type 0 where
  waits :
      {r : WorkRow}
      → db.reschedule_fails ≡ false
      → is_pending r ≡ true
      → r.claimed_until ≡ none
      → Settled db c item lease r
  finished :
      {r : WorkRow} (h : Handler) (requests : List Request)
      → db.complete_fails ≡ false
      → find? (handler_of item.kind) c.handlers ≡ some h
      → h.deliver item ≡ ok requests
      → r.revision ≡ item.revision
      → is_pending r ≡ false
      → Settled db c item lease r
  stays_leased :
      {r : WorkRow}
      → db.complete_fails || db.reschedule_fails ≡ true
      → is_pending r ≡ true
      → r.claimed_until ≡ lease
      → Settled db c item lease r

abbrev Leaves : Failures → Controller → WorkRow → Option ℕ → WorkQueue → Type 0
Leaves db c item lease q =
    (r : WorkRow) × (find? (has_id item.id) q.rows ≡ some r) × Settled db c item lease r

module _ (now : ℕ) (random : ℕ → ℕ) (db : Failures) (c : Controller) (item : WorkRow)
    (lease : Option ℕ) where
  if-Leaves :
      (b : Bool) (q q' : WorkQueue)
      → (b ≡ true → Leaves db c item lease q)
      → (b ≡ false → Leaves db c item lease q')
      → Leaves db c item lease (if b then q else q')
  if-Leaves true q q' t f = t refl
  if-Leaves false q q' t f = f refl

  -- What a failed statement leaves.
  untouched-Leaves :
      (q : WorkQueue)
      → Row item.id lease q
      → db.complete_fails || db.reschedule_fails ≡ true
      → Leaves db c item lease q
  untouched-Leaves q r failed = (r.row, r.found, stays_leased failed r.pending r.leased)

  try_reschedule-Leaves :
      (delay : ℕ) (last_error : Text) (q : WorkQueue)
      → Row item.id lease q
      → Leaves db c item lease
          (if db.reschedule_fails then q else reschedule now item.id delay last_error q)
  try_reschedule-Leaves delay last_error q r =
      if-Leaves db.reschedule_fails q (reschedule now item.id delay last_error q)
        (λ t. untouched-Leaves q r (ground (arith, t)))
        (λ works. (
          rescheduled (now + delay) last_error r.row,
          reschedule-find? now item.id lease delay last_error q r,
          waits works r.pending refl,
        ))

  retry-Leaves :
      (max_backoff : ℕ) (last_error : Text) (q : WorkQueue)
      → Row item.id lease q
      → Leaves db c item lease (retry now random db c item max_backoff last_error q)
  unfolding retry
  retry-Leaves max_backoff last_error q r =
      try_reschedule-Leaves (backoff random c.options item.attempts max_backoff) last_error q r

  completed-Leaves :
      (h : Handler) (requests : List Request) (q : WorkQueue)
      → db.complete_fails ≡ false
      → find? (handler_of item.kind) c.handlers ≡ some h
      → h.deliver item ≡ ok requests
      → IsExclusive q
      → Row item.id lease q
      → let (q', done) = complete now item.id item.revision q in
        Leaves db c item lease (
          if done
          then q'
          else if db.reschedule_fails
          then q'
          else reschedule now item.id 0 no_text q')
  unfolding complete
  completed-Leaves h requests q works f d x r =
      let decided =
        any-completes item.id item.revision q.rows {r = r.row} r.found (x.one_row item.id) in
      let found =
        find?-update_where item.id (completes item.id item.revision) (completed now) q.rows
          {r = r.row} (λ s. refl) r.found in
      elim (Bool-cases (completes item.id item.revision r.row)) [
        | inl t ↦ rw (decided ∙ t) (
          completed now r.row,
          found ∙ rw t refl,
          finished h requests works f d (ground (arith, t)) refl,
        )
        | inr n ↦ rw (decided ∙ n) (
            try_reschedule-Leaves 0 no_text
              (record q {
                rows = update_where (completes item.id item.revision) (completed now) q.rows;
              })
              (record {
                row = r.row;
                found = found ∙ rw n refl;
                pending = r.pending;
                leased = r.leased;
              }))
      ]

  settle-Leaves :
      (h : Handler) (requests : List Request) (q : WorkQueue)
      → find? (handler_of item.kind) c.handlers ≡ some h
      → h.deliver item ≡ ok requests
      → IsExclusive q
      → Row item.id lease q
      → Leaves db c item lease (settle now random db c item q)
  unfolding settle
  settle-Leaves h requests q f d x r =
      let (q', done) = complete now item.id item.revision q in
      if-Leaves db.complete_fails q
        (if done
          then q'
          else if db.reschedule_fails
          then q'
          else reschedule now item.id 0 no_text q')
        (λ t. untouched-Leaves q r (ground (arith, t)))
        (λ works. completed-Leaves h requests q works f d x r)

  follow_up-Leaves :
      (h : Handler) (max_backoff : ℕ) (requests : List Request) (q : WorkQueue)
      → find? (handler_of item.kind) c.handlers ≡ some h
      → h.deliver item ≡ ok requests
      → IsExclusive q
      → Row item.id lease q
      → Leaves db c item lease (follow_up now random db c item max_backoff requests q)
  unfolding follow_up enqueue enqueued
  follow_up-Leaves h max_backoff [] q f d x r = settle-Leaves h [] q f d x r
  follow_up-Leaves h max_backoff (request ∷ requests) q f d x r = with_specs c.specs
    where
      after :
          (m : WorkQueue × Option EnqueueError)
          → IsExclusive m.0 × Row item.id lease m.0
          → Leaves db c item lease (enqueued now random db c item max_backoff m)
      after (q', none) (x', r') = settle-Leaves h (request ∷ requests) q' f d x' r'
      after (q', some error) (x', r') = retry-Leaves max_backoff (c.printed error) q' r'

      with_specs :
          (specs : Option SpecRegistry)
          → Leaves db c item lease
              (enqueue now random db c item max_backoff specs (request ∷ requests) q)
      with_specs none = retry-Leaves max_backoff c.no_enqueuer q r
      with_specs (some specs) =
          after (enqueue_each now db.enqueue_fails specs (request ∷ requests) q)
            (enqueue_each-Row now item.id lease db.enqueue_fails specs (request ∷ requests) q x r)

  delivered-Leaves :
      (h : Handler) (max_backoff : ℕ) (outcome : Result Text (List Request)) (q : WorkQueue)
      → find? (handler_of item.kind) c.handlers ≡ some h
      → h.deliver item ≡ outcome
      → IsExclusive q
      → Row item.id lease q
      → Leaves db c item lease (delivered now random db c item max_backoff outcome q)
  unfolding delivered
  delivered-Leaves h max_backoff (err text) q f d x r = retry-Leaves max_backoff text q r
  delivered-Leaves h max_backoff (ok requests) q f d x r =
      follow_up-Leaves h max_backoff requests q f d x r

  handled-Leaves :
      (o : Option Handler) (q : WorkQueue)
      → find? (handler_of item.kind) c.handlers ≡ o
      → IsExclusive q
      → Row item.id lease q
      → Leaves db c item lease (handled now random db c item o q)
  unfolding handled
  handled-Leaves none q f x r = retry-Leaves default_max_backoff c.no_handler q r
  handled-Leaves (some h) q f x r =
      delivered-Leaves h (handler_backoff c.options h) (h.deliver item) q f refl x r

-- Processing never loses an item that is pending in an exclusive queue: whichever statements the
-- database fails, its row is still there afterwards. Either it waits unleased for another attempt,
-- and then rescheduling does not fail; or it is processed, and then completing does not fail, its
-- kind's handler delivered the item and its revision is the one that was claimed; or it is pending
-- with the lease it had, and then completing or rescheduling fails.
pub process-Settled :
    (now : ℕ) (random : ℕ → ℕ) (db : Failures) (c : Controller) (item : WorkRow) (lease : Option ℕ)
    (q : WorkQueue)
    → IsExclusive q
    → Row item.id lease q
    → (r : WorkRow) × (find? (has_id item.id) (process now random db c item q).rows ≡ some r)
      × Settled db c item lease r
unfolding process
process-Settled now random db c item lease q x r =
    handled-Leaves now random db c item lease (find? (handler_of item.kind) c.handlers) q refl x r
