-- ===== src/Queue/Rows.antt =====
-- The row of a claimed item under the statements of internal/postgres/workqueue.go that process makes.
use tflive.Common.{
  ℕ, ◌+◌, ◌≤◌, Bool, true, false, ◌≡◌, refl, arith, ◌∙◌, List, [], ◌∷◌, Option, some, if◌then◌else◌,
  any, count, find?, update_where, find?-append_some, Bool-cases, inl, inr, ==-refl,
}
use tflive.Common.Results.{Result, ok, err}
use tflive.Domain.{Text}
use tflive.Queue.Specs.{
  Request, SpecRegistry, SpecError, Resolved, resolve, Mode, job, reconcile, is_job,
}
use tflive.Queue.Store.{
  WorkRow, WorkQueue, has_id, is_pending, pending_of, new_row, coalesced, enqueue_resolved,
  completes, reschedule, reschedules, rescheduled,
}
use tflive.Queue.Exclusion.{IsExclusive, enqueue_resolved-IsExclusive}
use tflive.Queue.Leases.{has_id-none}
use tflive.Queue.Controller.{EnqueueError, unresolved, not_written, enqueue_each}

pub find?-update_where :
    (id : ℕ) (p : WorkRow → Bool) (f : WorkRow → WorkRow) (rows : List WorkRow) {r : WorkRow}
    → ((s : WorkRow) → (f s).id ≡ s.id)
    → find? (has_id id) rows ≡ some r
    → find? (has_id id) (update_where p f rows) ≡ some (if p r then f r else r)
find?-update_where id p f [] same h = cc
find?-update_where id p f (s ∷ rows) {r} same h = elim (Bool-cases (has_id id s)) [
  | inl t ↦
      let e : s ≡ r = ground (arith, h, t) in
      elim (Bool-cases (p s)) [
        | inl y ↦ rw y (ground (arith, same s, t, e, y))
        | inr n ↦ rw n (ground (arith, t, e, n))
      ]
  | inr z ↦ elim (Bool-cases (p s)) [
    | inl y ↦
        rw y
          (rw (same s) (rw z (find?-update_where id p f rows {r = r} same (ground (arith, h, z)))))
    | inr n ↦ rw n (rw z (find?-update_where id p f rows {r = r} same (ground (arith, h, z))))
  ]
]

pub has_id-find? :
    (id : ℕ) (rows : List WorkRow) {r : WorkRow} → find? (has_id id) rows ≡ some r → r.id ≡ id
has_id-find? id [] h = cc
has_id-find? id (s ∷ rows) {r} h = ground (arith, has_id-find? id rows {r = r})

none_completes :
    (id revision : ℕ) (rows : List WorkRow)
    → any (has_id id) rows ≡ false
    → any (completes id revision) rows ≡ false
none_completes id revision [] h = refl
none_completes id revision (r ∷ rows) h = ground (arith, none_completes id revision rows)

-- The row of an identifier alone decides whether the identifier is completed.
pub any-completes :
    (id revision : ℕ) (rows : List WorkRow) {r : WorkRow}
    → find? (has_id id) rows ≡ some r
    → count (has_id id) rows ≤ 1
    → any (completes id revision) rows ≡ completes id revision r
any-completes id revision [] h c = cc
any-completes id revision (s ∷ rows) {r} h c = elim (Bool-cases (has_id id s)) [
  | inl t ↦
      let e : s ≡ r = ground (arith, h, t) in
      let alone = none_completes id revision rows (has_id-none id rows (ground (arith, c, t))) in
      rw e (rw alone (ground arith))
  | inr n ↦ ground (arith, any-completes id revision rows {r = r}, h, c, n)
]

-- The pending row of an item, with its lease.
pub record Row (id : ℕ) (lease : Option ℕ) (q : WorkQueue) : Type 0 where
  pub row : WorkRow
  pub found : find? (has_id id) q.rows ≡ some row
  pub pending : is_pending row ≡ true
  pub leased : row.claimed_until ≡ lease

module _ (now id : ℕ) (lease : Option ℕ) where
  pub reschedule-find? :
      (delay : ℕ) (last_error : Text) (q : WorkQueue) (r : Row id lease q)
      → find? (has_id id) (reschedule now id delay last_error q).rows
        ≡ some (rescheduled (now + delay) last_error r.row)
  unfolding reschedule
  reschedule-find? delay last_error q r =
      let here = has_id-find? id q.rows {r = r.row} r.found in
      let taken : reschedules id r.row ≡ true = ground (arith, ==-refl id, here, r.pending) in
      find?-update_where id (reschedules id) (rescheduled (now + delay) last_error) q.rows
        {r = r.row} (λ s. refl) r.found
      ∙ rw taken refl

  enqueue_resolved-Row :
      (resolved : Resolved) (q : WorkQueue)
      → Row id lease q
      → Row id lease (enqueue_resolved now resolved q)
  unfolding enqueue_resolved
  enqueue_resolved-Row resolved q r =
      elim (Bool-cases (any (pending_of resolved.kind resolved.key) q.rows)) [
        | inl t ↦ rw t (coalesce resolved.mode)
        | inr n ↦ rw n (record {
          row = r.row;
          found =
              find?-append_some (has_id id) q.rows (new_row now q.next_id resolved ∷ []) r.found;
          pending = r.pending;
          leased = r.leased;
        })
      ]
    where
      bump : Row id lease (record q {
        rows = update_where (pending_of resolved.kind resolved.key) (coalesced resolved) q.rows;
        next_id = q.next_id + 1;
      })
      bump = record {
        row =
            if pending_of resolved.kind resolved.key r.row then coalesced resolved r.row else r.row;
        found =
            find?-update_where id (pending_of resolved.kind resolved.key) (coalesced resolved)
              q.rows {r = r.row} (λ s. refl) r.found;
        pending = ground (arith, r.pending);
        leased = ground (arith, r.leased);
      }

      coalesce :
          (mode : Mode)
          → Row id lease (record q {
            rows =
                if is_job mode
                then q.rows
                else update_where
                    (pending_of resolved.kind resolved.key)
                    (coalesced resolved)
                    q.rows;
            next_id = q.next_id + 1;
          })
      coalesce job = record { row = r.row; found = r.found; pending = r.pending; leased = r.leased }
      coalesce reconcile = bump

  -- Enqueuing on the pool keeps the row, and the queue exclusive, whether or not it fails.
  pub enqueue_each-Row :
      (fails : Request → Bool) (specs : SpecRegistry) (requests : List Request) (q : WorkQueue)
      → IsExclusive q
      → Row id lease q
      → let q' = (enqueue_each now fails specs requests q).0 in IsExclusive q' × Row id lease q'
  unfolding enqueue_each
  enqueue_each-Row fails specs [] q x r = (x, r)
  enqueue_each-Row fails specs (request ∷ requests) q x r =
      on_resolved (resolve specs request) (λ resolved.
        enqueue_each-Row fails specs requests (enqueue_resolved now resolved q)
          (enqueue_resolved-IsExclusive now resolved q x) (enqueue_resolved-Row resolved q r))
    where
      Kept : WorkQueue × Option EnqueueError → Type 0
      Kept p = IsExclusive p.0 × Row id lease p.0

      on_written :
          (resolved : Resolved) (b : Bool)
          → Kept (enqueue_each now fails specs requests (enqueue_resolved now resolved q))
          → Kept (elim b [
            | true ↦ (q, some (not_written request))
            | false ↦ enqueue_each now fails specs requests (enqueue_resolved now resolved q)
          ])
      on_written resolved true rest = (x, r)
      on_written resolved false rest = rest

      on_resolved :
          (m : Result SpecError Resolved)
          → ((resolved : Resolved)
              → Kept (enqueue_each now fails specs requests (enqueue_resolved now resolved q)))
          → Kept (elim m [
            | err e ↦ (q, some (unresolved e))
            | ok resolved ↦ elim (fails request) [
              | true ↦ (q, some (not_written request))
              | false ↦ enqueue_each now fails specs requests (enqueue_resolved now resolved q)
            ]
          ])
      on_resolved (err e) rest = (x, r)
      on_resolved (ok resolved) rest = on_written resolved (fails request) (rest resolved)
