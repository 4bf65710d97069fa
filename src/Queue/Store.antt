-- ===== src/Queue/Store.antt =====
-- internal/postgres/workqueue.go: the table work_queue of migrations/0012_work_queue.sql, and its statements. `now` is
-- the database's clock. A statement that the database fails writes nothing, and is not modelled.
use tflive.Common.{
  ℕ, zero, suc, ◌+◌, ◌==◌, leb, ltb, Bool, true, false, ◌&&◌, ◌||◌, not, List, [], ◌∷◌, ◌++◌, map,
  Option, none, some, if◌then◌else◌, any, count, update_where,
}
use tflive.Common.Results.{Result, ok, ◌>>=◌}
use tflive.Domain.{Text, no_text}
use tflive.Queue.Specs.{is_job, Request, SpecError, SpecRegistry, Resolved, resolve}

pub record WorkRow : Type 0 where
  pub id : ℕ
  pub kind : Text
  pub key : Text
  pub payload : Text
  pub revision : ℕ
  pub actor_subject : Text
  pub tenant_id : Text
  pub available_at : ℕ
  pub claimed_until : Option ℕ
  pub attempts : ℕ
  pub last_error : Text
  pub processed_at : Option ℕ

-- `next_id` is the sequence of the bigserial.
pub record WorkQueue : Type 0 where
  pub rows : List WorkRow
  pub next_id : ℕ

abbrev pub has_id : ℕ → WorkRow → Bool
has_id id r = r.id == id

-- `processed_at is null`.
abbrev pub is_pending : WorkRow → Bool
is_pending r = elim r.processed_at [ none ↦ true | some t ↦ false ]

-- The rows of work_queue_pending_key_idx with one key.
abbrev pub pending_of : Text → Text → WorkRow → Bool
pending_of kind key r = is_pending r && (r.kind == kind && r.key == key)

-- The columns that the insert leaves out have their defaults.
abbrev pub new_row : ℕ → ℕ → Resolved → WorkRow
new_row now id resolved = record {
  id = id;
  kind = resolved.kind;
  key = resolved.key;
  payload = resolved.payload;
  revision = 1;
  actor_subject = resolved.actor_subject;
  tenant_id = resolved.tenant_id;
  available_at = now;
  claimed_until = none;
  attempts = 0;
  last_error = no_text;
  processed_at = none;
}

abbrev pub coalesced : Resolved → WorkRow → WorkRow
coalesced resolved r = record r { payload = resolved.payload; revision = r.revision + 1 }

-- `enqueueReconcileSQL` and `enqueueJobSQL`: on a conflict with the pending row of the key, the first coalesces and the
-- second does nothing. The sequence moves on either way.
unfoldable pub enqueue_resolved : ℕ → Resolved → WorkQueue → WorkQueue
enqueue_resolved now resolved q =
    if any (pending_of resolved.kind resolved.key) q.rows
    then record q {
      rows =
          if is_job resolved.mode
          then q.rows
          else update_where (pending_of resolved.kind resolved.key) (coalesced resolved) q.rows;
      next_id = q.next_id + 1;
    }
    else record q { rows = q.rows ++ new_row now q.next_id resolved ∷ []; next_id = q.next_id + 1 }

-- `enqueueRequests` inside a transaction, which an error rolls back.
unfoldable pub enqueue_requests :
    ℕ → SpecRegistry → List Request → WorkQueue → Result SpecError WorkQueue
unfolding enqueue_resolved
enqueue_requests now specs [] q = ok q
enqueue_requests now specs (request ∷ requests) q =
    resolve specs request
    >>= (λ resolved. enqueue_requests now specs requests (enqueue_resolved now resolved q))

-- `claimed_until is null or claimed_until <= now()`.
abbrev pub lease_over : ℕ → WorkRow → Bool
lease_over now r = elim r.claimed_until [ none ↦ true | some t ↦ leb t now ]

-- No kinds are every kind.
abbrev pub kind_allowed : List Text → Text → Bool
kind_allowed [] kind = true
kind_allowed (k ∷ ks) kind = any (λ x. x == kind) (k ∷ ks)

-- The candidate's conditions. `locked` are the rows of other transactions, which are skipped.
abbrev pub claimable : ℕ → List Text → (ℕ → Bool) → WorkRow → Bool
claimable now kinds locked r =
    is_pending r
    && (leb r.available_at now
        && (lease_over now r && (kind_allowed kinds r.kind && not (locked r.id))))

-- `order by available_at, id`.
abbrev pub before : WorkRow → WorkRow → Bool
before r s =
    ltb r.available_at s.available_at || (r.available_at == s.available_at && leb r.id s.id)

abbrev pub insert_row : WorkRow → List WorkRow → List WorkRow
insert_row r [] = r ∷ []
insert_row r (s ∷ ss) = if before r s then r ∷ s ∷ ss else s ∷ insert_row r ss

-- The claimable rows, in that order.
unfoldable pub candidates : (WorkRow → Bool) → List WorkRow → List WorkRow
candidates p [] = []
candidates p (r ∷ rs) = if p r then insert_row r (candidates p rs) else candidates p rs

-- `limit`.
abbrev pub take : ℕ → List WorkRow → List WorkRow
take zero rs = []
take (suc n) [] = []
take (suc n) (r ∷ rs) = r ∷ take n rs

abbrev pub leased : ℕ → WorkRow → WorkRow
leased until r = record r { claimed_until = some until; attempts = r.attempts + 1 }

abbrev pub any_id : List WorkRow → WorkRow → Bool
any_id rs r = any (has_id r.id) rs

-- `Claim`: the items are the claimed rows as updated.
unfoldable pub claim : ℕ → ℕ → ℕ → List Text → (ℕ → Bool) → WorkQueue → WorkQueue × List WorkRow
claim now lease limit kinds locked q =
    let chosen = take limit (candidates (claimable now kinds locked) q.rows) in
    (
      record q { rows = update_where (any_id chosen) (leased (now + lease)) q.rows },
      map (leased (now + lease)) chosen,
    )

abbrev pub completes : ℕ → ℕ → WorkRow → Bool
completes id revision r = has_id id r && (r.revision == revision && is_pending r)

abbrev pub completed : ℕ → WorkRow → WorkRow
completed now r = record r { processed_at = some now; claimed_until = none; last_error = no_text }

-- `Complete`, fenced by the revision.
unfoldable pub complete : ℕ → ℕ → ℕ → WorkQueue → WorkQueue × Bool
complete now id revision q = (
  record q { rows = update_where (completes id revision) (completed now) q.rows },
  any (completes id revision) q.rows,
)

abbrev pub reschedules : ℕ → WorkRow → Bool
reschedules id r = has_id id r && is_pending r

abbrev pub rescheduled : ℕ → Text → WorkRow → WorkRow
rescheduled at last_error r = record r {
  claimed_until = none;
  available_at = at;
  last_error = last_error;
}

-- `Reschedule`.
unfoldable pub reschedule : ℕ → ℕ → ℕ → Text → WorkQueue → WorkQueue
reschedule now id delay last_error q = record q {
  rows = update_where (reschedules id) (rescheduled (now + delay) last_error) q.rows;
}

-- `processed_at < now() - $1`.
abbrev pub is_old : ℕ → ℕ → WorkRow → Bool
is_old now retention r = elim r.processed_at [ none ↦ false | some t ↦ ltb (t + retention) now ]

abbrev pub delete_where : (WorkRow → Bool) → List WorkRow → List WorkRow
delete_where p [] = []
delete_where p (r ∷ rs) = if p r then delete_where p rs else r ∷ delete_where p rs

-- `Prune`, where `acquired` is whether this worker got the round's lock.
unfoldable pub prune : ℕ → ℕ → Bool → WorkQueue → WorkQueue × ℕ
prune now retention false q = (q, 0)
prune now retention true q = (
  record q { rows = delete_where (is_old now retention) q.rows },
  count (is_old now retention) q.rows,
)
