-- ===== src/Queue/Leases.antt =====
-- What a claim leases, and what settles it.
use tflive.Common.{
  ℕ, ◌+◌, ◌≤◌, ◌<◌, Bool, true, false, ◌||◌, ◌≡◌, refl, arith, ◌∙◌, List, [], ◌∷◌, map, some, any,
  count, find?, update_where, ==-refl, Bool-cases, inl, inr, zero, suc,
}
use tflive.Domain.{Text}
use tflive.Queue.Specs.{Resolved, reconcile}
use tflive.Queue.Store.{
  WorkRow, WorkQueue, has_id, is_pending, pending_of, coalesced, enqueue_resolved, claim, claimable,
  candidates, insert_row, before, take, any_id, leased, complete, completes, completed,
}
use tflive.Queue.Exclusion.{IsExclusive}

any-insert_row :
    (p : WorkRow → Bool) (r : WorkRow) (rows : List WorkRow)
    → any p (insert_row r rows) ≡ (p r || any p rows)
any-insert_row p r [] = refl
any-insert_row p r (s ∷ rows) = elim (Bool-cases (before r s)) [
  | inl t ↦ rw t refl
  | inr n ↦ rw n (ground (arith, any-insert_row p r rows))
]

any-take :
    (p : WorkRow → Bool) (n : ℕ) (rows : List WorkRow)
    → any p rows ≡ false
    → any p (take n rows) ≡ false
any-take p zero rows h = refl
any-take p (suc n) [] h = refl
any-take p (suc n) (r ∷ rows) h = ground (arith, any-take p n rows)

any-leased :
    (p : WorkRow → Bool) (until : ℕ) (rows : List WorkRow)
    → ((r : WorkRow) → p (leased until r) ≡ p r)
    → any p (map (leased until) rows) ≡ any p rows
any-leased p until [] h = refl
any-leased p until (r ∷ rows) h = rw (h r) (rw (any-leased p until rows h) refl)

-- The rows that an update makes ineligible are no candidates.
any-candidates :
    (chosen p : WorkRow → Bool) (f : WorkRow → WorkRow) (rows : List WorkRow)
    → ((r : WorkRow) → p (f r) ≡ false)
    → any chosen (candidates p (update_where chosen f rows)) ≡ false
unfolding candidates
any-candidates chosen p f [] h = refl
any-candidates chosen p f (r ∷ rows) h = elim (Bool-cases (chosen r)) [
  | inl t ↦ rw t (rw (h r) (any-candidates chosen p f rows h))
  | inr n ↦ rw n (elim (Bool-cases (p r)) [
    | inl y ↦ rw y (
        rw (any-insert_row chosen r (candidates p (update_where chosen f rows)))
          (rw n (any-candidates chosen p f rows h)))
    | inr z ↦ rw z (any-candidates chosen p f rows h)
  ])
]

claimable-leased :
    (now until : ℕ) (kinds : List Text) (locked : ℕ → Bool) (r : WorkRow)
    → now < until
    → claimable now kinds locked (leased until r) ≡ false
claimable-leased now until kinds locked r h = ground arith

any-ext :
    (p q : WorkRow → Bool) (rows : List WorkRow)
    → ((r : WorkRow) → p r ≡ q r)
    → any p rows ≡ any q rows
any-ext p q [] h = refl
any-ext p q (r ∷ rows) h = rw (h r) (rw (any-ext p q rows h) refl)

-- A claim leases its items: until the lease is over, the next claim, by whatever worker and for
-- whatever kinds and limit, returns none of them.
pub claim-claim :
    (now lease limit : ℕ) (kinds : List Text) (locked : ℕ → Bool) (now' lease' limit' : ℕ)
    (kinds' : List Text) (locked' : ℕ → Bool) (q : WorkQueue)
    → now' < now + lease
    → any
        (any_id (claim now lease limit kinds locked q).1)
        (claim now' lease' limit' kinds' locked' (claim now lease limit kinds locked q).0).1
      ≡ false
unfolding claim
claim-claim now lease limit kinds locked now' lease' limit' kinds' locked' q h =
    let chosen = take limit (candidates (claimable now kinds locked) q.rows) in
    let remaining =
      candidates (claimable now' kinds' locked')
        (update_where (any_id chosen) (leased (now + lease)) q.rows) in
    let same_ids =
      any-ext (any_id (map (leased (now + lease)) chosen)) (any_id chosen)
        (map (leased (now' + lease')) (take limit' remaining))
        (λ r. any-leased (has_id r.id) (now + lease) chosen (λ s. refl)) in
    same_ids
    ∙ any-leased (any_id chosen) (now' + lease') (take limit' remaining) (λ s. refl)
    ∙ any-take (any_id chosen) limit' remaining (
        any-candidates (any_id chosen) (claimable now' kinds' locked') (leased (now + lease)) q.rows
          (λ r. claimable-leased now' (now + lease) kinds' locked' r h))

without_id :
    (id revision : ℕ) (p : WorkRow → Bool) (resolved : Resolved) (rows : List WorkRow)
    → any (has_id id) rows ≡ false
    → any (completes id revision) (update_where p (coalesced resolved) rows) ≡ false
without_id id revision p resolved [] h = refl
without_id id revision p resolved (r ∷ rows) h =
    ground (arith, without_id id revision p resolved rows)

pub has_id-none :
    (id : ℕ) (rows : List WorkRow) → count (has_id id) rows ≡ 0 → any (has_id id) rows ≡ false
has_id-none id [] h = refl
has_id-none id (r ∷ rows) h = ground (arith, has_id-none id rows)

-- The row of an identifier is bumped, and no other row has it.
bumped :
    (p : WorkRow → Bool) (resolved : Resolved) (rows : List WorkRow) (r : WorkRow)
    → find? (has_id r.id) rows ≡ some r
    → count (has_id r.id) rows ≤ 1
    → p r ≡ true
    → any (completes r.id r.revision) (update_where p (coalesced resolved) rows) ≡ false
bumped p resolved [] r f c h = cc
bumped p resolved (s ∷ rows) r f c h = elim (Bool-cases (has_id r.id s)) [
  | inl t ↦
      let same : s ≡ r = ground (arith, f, t) in
      rw same (
        rw h
          (ground (arith, without_id r.id r.revision p resolved rows, has_id-none r.id rows, c, t)))
  | inr n ↦ elim (Bool-cases (p s)) [
    | inl y ↦ rw y (ground (arith, bumped p resolved rows r, f, c, n, h))
    | inr z ↦ rw z (ground (arith, bumped p resolved rows r, f, c, n, h))
  ]
]

update_where-none :
    (p : WorkRow → Bool) (f : WorkRow → WorkRow) (rows : List WorkRow)
    → any p rows ≡ false
    → update_where p f rows ≡ rows
update_where-none p f [] h = refl
update_where-none p f (r ∷ rows) h = ground (arith, update_where-none p f rows)

any-find? :
    (p q : WorkRow → Bool) (rows : List WorkRow) {r : WorkRow}
    → find? p rows ≡ some r
    → q r ≡ true
    → any q rows ≡ true
any-find? p q [] f h = cc
any-find? p q (s ∷ rows) {r} f h = ground (arith, any-find? p q rows {r = r})

pending_of_self : (r : WorkRow) → is_pending r ≡ true → pending_of r.kind r.key r ≡ true
pending_of_self r h = ground (arith, ==-refl r.kind, ==-refl r.key)

-- A newer intent of a reconcile kind for the key of an item that is pending in an exclusive queue
-- fences the item's delivery: completing it with the revision that it had before reports false and
-- changes nothing, so the newer payload stays pending.
pub complete-enqueue_resolved :
    (now now' : ℕ) (payload actor_subject tenant_id : Text) (q : WorkQueue) (r : WorkRow)
    → IsExclusive q
    → find? (has_id r.id) q.rows ≡ some r
    → is_pending r ≡ true
    → complete now' r.id r.revision (
        enqueue_resolved now
          (record {
            kind = r.kind;
            key = r.key;
            mode = reconcile;
            payload = payload;
            actor_subject = actor_subject;
            tenant_id = tenant_id;
          })
          q)
      ≡ (
        enqueue_resolved now
            (record {
              kind = r.kind;
              key = r.key;
              mode = reconcile;
              payload = payload;
              actor_subject = actor_subject;
              tenant_id = tenant_id;
            })
            q,
        false,
      )
unfolding complete enqueue_resolved
complete-enqueue_resolved now now' payload actor_subject tenant_id q r h f p =
    let resolved : Resolved = record {
      kind = r.kind;
      key = r.key;
      mode = reconcile;
      payload = payload;
      actor_subject = actor_subject;
      tenant_id = tenant_id;
    } in
    let taken = pending_of_self r p in
    let none_completes =
      bumped (pending_of r.kind r.key) resolved q.rows r f (h.one_row r.id) taken in
    rw (any-find? (has_id r.id) (pending_of r.kind r.key) q.rows f taken) (
      rw none_completes
        (rw (update_where-none (completes r.id r.revision) (completed now') _ none_completes) refl))
