-- ===== src/Queue/Exclusion.antt =====
-- At most one pending row of a key: what the queue's statements keep.
use tflive.Common.{
  ℕ, ◌+◌, ◌≤◌, ◌<◌, Bool, true, false, ◌≡◌, refl, arith, List, [], ◌∷◌, if◌then◌else◌, any, bit,
  count, update_where, count-add_le_one, All, All-append, All-update_where, All-map, Bool-cases,
  inl, inr, subst, ==_iff,
}
use mathlib.Core.Path.{subst₂}
use tflive.Common.Results.{Result, ok, err, >>=-eq-ok}
use tflive.Domain.{Text}
use tflive.Queue.Specs.{
  Mode, reconcile, job, is_job, Request, SpecError, SpecRegistry, Resolved, resolve,
}
use tflive.Queue.Store.{
  WorkRow, WorkQueue, has_id, pending_of, new_row, coalesced, enqueue_resolved, enqueue_requests,
  claim, claimable, candidates, take, any_id, leased, complete, completes, completed, reschedule,
  reschedules, rescheduled, is_old, delete_where, prune,
}

-- A key has at most one pending row, and an identifier one row, below the sequence.
pub record IsExclusive (q : WorkQueue) : Type 0 where
  pub one_pending : (kind key : Text) → count (pending_of kind key) q.rows ≤ 1
  pub one_row : (id : ℕ) → count (has_id id) q.rows ≤ 1
  pub numbered : All (λ r. r.id < q.next_id) q.rows

count-update_where :
    (q p : WorkRow → Bool) (f : WorkRow → WorkRow) (rows : List WorkRow)
    → ((r : WorkRow) → bit (q (f r)) ≤ bit (q r))
    → count q (update_where p f rows) ≤ count q rows
count-update_where q p f [] h = omega arith
count-update_where q p f (r ∷ rows) h = elim (Bool-cases (p r)) [
  | inl t ↦ rw t (omega (arith, h r, count-update_where q p f rows h))
  | inr n ↦ rw n (omega (arith, count-update_where q p f rows h))
]

-- An update that keeps a row's identity, and makes no row pending.
update-IsExclusive :
    (q : WorkQueue) (p : WorkRow → Bool) (f : WorkRow → WorkRow)
    → ((r : WorkRow) → (f r).id ≡ r.id)
    → ((kind key : Text) (r : WorkRow)
        → bit (pending_of kind key (f r)) ≤ bit (pending_of kind key r))
    → IsExclusive q
    → IsExclusive (record q { rows = update_where p f q.rows })
update-IsExclusive q p f same fewer h = record {
  one_pending = λ kind key. omega (
    arith,
    count-update_where (pending_of kind key) p f q.rows (fewer kind key),
    h.one_pending kind key,
  );
  one_row =
      λ id. omega (arith, count-update_where (has_id id) p f q.rows (same_row id), h.one_row id);
  numbered =
      All-update_where (λ r. r.id < q.next_id) p f q.rows (λ r x. omega (arith, same r, x))
        h.numbered;
}
  where
    same_row : (id : ℕ) (r : WorkRow) → bit (has_id id (f r)) ≤ bit (has_id id r)
    same_row id r = rw (same r) (omega arith)

All-none : (n : ℕ) (rows : List WorkRow) → All (λ r. r.id < n) rows → any (has_id n) rows ≡ false
All-none n [] h = refl
All-none n (r ∷ rows) h = ground (arith, All-none n rows h.1, h.0)

pending_of-eq :
    (kind key : Text) (r : WorkRow) → pending_of kind key r ≡ true → (r.kind ≡ kind) × (r.key ≡ key)
pending_of-eq kind key r h = ground arith

-- The sequence may skip.
next-IsExclusive :
    (q : WorkQueue) → IsExclusive q → IsExclusive (record q { next_id = q.next_id + 1 })
next-IsExclusive q h = record {
  one_pending = h.one_pending;
  one_row = h.one_row;
  numbered = All-map q.rows (λ r x. omega (arith, x)) h.numbered;
}

pub enqueue_resolved-IsExclusive :
    (now : ℕ) (resolved : Resolved) (q : WorkQueue)
    → IsExclusive q
    → IsExclusive (enqueue_resolved now resolved q)
unfolding enqueue_resolved
enqueue_resolved-IsExclusive now resolved q h =
    elim (Bool-cases (any (pending_of resolved.kind resolved.key) q.rows)) [
      | inl t ↦ rw t (coalesce resolved.mode)
      | inr n ↦ rw n (record {
        one_pending = λ kind key.
            count-add_le_one (pending_of kind key) q.rows (new_row now q.next_id resolved)
              (λ x.
                let (k, l) = pending_of-eq kind key (new_row now q.next_id resolved) x in
                subst₂ (λ a b. any (pending_of a b) q.rows ≡ false) k l n)
              (h.one_pending kind key);
        one_row = λ id.
            count-add_le_one (has_id id) q.rows (new_row now q.next_id resolved)
              (λ x.
                subst (λ a. any (has_id a) q.rows ≡ false) ((==_iff q.next_id id).0 x)
                  (All-none q.next_id q.rows h.numbered))
              (h.one_row id);
        numbered =
            All-append (λ r. r.id < q.next_id + 1) q.rows (new_row now q.next_id resolved ∷ [])
              (All-map q.rows (λ r x. omega (arith, x)) h.numbered) (omega arith, tt);
      })
    ]
  where
    coalesce :
        (mode : Mode)
        → IsExclusive (record q {
          rows =
              if is_job mode
              then q.rows
              else update_where (pending_of resolved.kind resolved.key) (coalesced resolved) q.rows;
          next_id = q.next_id + 1;
        })
    coalesce job = next-IsExclusive q h
    coalesce reconcile =
        next-IsExclusive
          (record q {
            rows = update_where (pending_of resolved.kind resolved.key) (coalesced resolved) q.rows;
          })
          (update-IsExclusive q (pending_of resolved.kind resolved.key) (coalesced resolved)
            (λ r. refl) (λ kind key r. omega arith) h)

pub enqueue_requests-IsExclusive :
    (now : ℕ) (specs : SpecRegistry) (requests : List Request) (q : WorkQueue) {q' : WorkQueue}
    → IsExclusive q
    → enqueue_requests now specs requests q ≡ ok q'
    → IsExclusive q'
unfolding enqueue_requests
enqueue_requests-IsExclusive now specs [] q h e = ground (arith, h)
enqueue_requests-IsExclusive now specs (request ∷ requests) q h e =
    let (resolved, _, e1) = >>=-eq-ok (resolve specs request) _ e in
    enqueue_requests-IsExclusive now specs requests (enqueue_resolved now resolved q)
      (enqueue_resolved-IsExclusive now resolved q h) e1

claim-IsExclusive :
    (now lease limit : ℕ) (kinds : List Text) (locked : ℕ → Bool) (q : WorkQueue)
    → IsExclusive q
    → IsExclusive (claim now lease limit kinds locked q).0
unfolding claim
claim-IsExclusive now lease limit kinds locked q h =
    update-IsExclusive q (any_id (take limit (candidates (claimable now kinds locked) q.rows)))
      (leased (now + lease)) (λ r. refl) (λ kind key r. omega arith) h

complete-IsExclusive :
    (now id revision : ℕ) (q : WorkQueue)
    → IsExclusive q
    → IsExclusive (complete now id revision q).0
unfolding complete
complete-IsExclusive now id revision q h =
    update-IsExclusive q (completes id revision) (completed now) (λ r. refl)
      (λ kind key r. omega arith) h

reschedule-IsExclusive :
    (now id delay : ℕ) (last_error : Text) (q : WorkQueue)
    → IsExclusive q
    → IsExclusive (reschedule now id delay last_error q)
unfolding reschedule
reschedule-IsExclusive now id delay last_error q h =
    update-IsExclusive q (reschedules id) (rescheduled (now + delay) last_error) (λ r. refl)
      (λ kind key r. omega arith) h

count-delete_where :
    (q p : WorkRow → Bool) (rows : List WorkRow) → count q (delete_where p rows) ≤ count q rows
count-delete_where q p [] = omega arith
count-delete_where q p (r ∷ rows) = ground (arith, count-delete_where q p rows)

All-delete_where :
    (P : WorkRow → Type 0) (p : WorkRow → Bool) (rows : List WorkRow)
    → All P rows
    → All P (delete_where p rows)
All-delete_where P p [] h = tt
All-delete_where P p (r ∷ rows) h = elim (Bool-cases (p r)) [
  | inl t ↦ rw t (All-delete_where P p rows h.1)
  | inr n ↦ rw n (h.0, All-delete_where P p rows h.1)
]

prune-IsExclusive :
    (now retention : ℕ) (acquired : Bool) (q : WorkQueue)
    → IsExclusive q
    → IsExclusive (prune now retention acquired q).0
unfolding prune
prune-IsExclusive now retention false q h = h
prune-IsExclusive now retention true q h = record {
  one_pending = λ kind key. omega (
    arith,
    count-delete_where (pending_of kind key) (is_old now retention) q.rows,
    h.one_pending kind key,
  );
  one_row = λ id.
      omega (arith, count-delete_where (has_id id) (is_old now retention) q.rows, h.one_row id);
  numbered = All-delete_where (λ r. r.id < q.next_id) (is_old now retention) q.rows h.numbered;
}

-- What happens to the queue, each statement with the time of the database.
pub data Statement : Type 0 where
  enqueues : SpecRegistry → List Request → Statement
  claims : ℕ → ℕ → List Text → (ℕ → Bool) → Statement
  completes_item : ℕ → ℕ → Statement
  reschedules_item : ℕ → ℕ → Text → Statement
  prunes : ℕ → Bool → Statement

abbrev kept : WorkQueue → Result SpecError WorkQueue → WorkQueue
kept q (ok q') = q'
kept q (err e) = q

unfoldable pub queue_step : ℕ → Statement → WorkQueue → WorkQueue
queue_step now (enqueues specs requests) q = kept q (enqueue_requests now specs requests q)
queue_step now (claims lease limit kinds locked) q = (claim now lease limit kinds locked q).0
queue_step now (completes_item id revision) q = (complete now id revision q).0
queue_step now (reschedules_item id delay last_error) q = reschedule now id delay last_error q
queue_step now (prunes retention acquired) q = (prune now retention acquired q).0

kept-IsExclusive :
    (q : WorkQueue) (m : Result SpecError WorkQueue)
    → IsExclusive q
    → ((q' : WorkQueue) → m ≡ ok q' → IsExclusive q')
    → IsExclusive (kept q m)
kept-IsExclusive q (ok q') h p = p q' refl
kept-IsExclusive q (err e) h p = h

-- Every statement on the queue, with any arguments and at any time, keeps at most one pending row of a kind and key,
-- one row of an identifier, and the identifiers below the sequence.
pub queue_step-IsExclusive :
    (now : ℕ) (statement : Statement) (q : WorkQueue)
    → IsExclusive q
    → IsExclusive (queue_step now statement q)
unfolding queue_step
queue_step-IsExclusive now (enqueues specs requests) q h =
    kept-IsExclusive q (enqueue_requests now specs requests q) h
      (λ q' e. enqueue_requests-IsExclusive now specs requests q h e)
queue_step-IsExclusive now (claims lease limit kinds locked) q h =
    claim-IsExclusive now lease limit kinds locked q h
queue_step-IsExclusive now (completes_item id revision) q h =
    complete-IsExclusive now id revision q h
queue_step-IsExclusive now (reschedules_item id delay last_error) q h =
    reschedule-IsExclusive now id delay last_error q h
queue_step-IsExclusive now (prunes retention acquired) q h =
    prune-IsExclusive now retention acquired q h
