-- ===== src/Queue/Intents.antt =====
-- The intent that an enqueue of internal/postgres/workqueue.go leaves pending.
use tflive.Common.{
  ℕ, ◌==◌, Bool, true, ◌&&◌, not, ◌≡◌, ◌⊎◌, refl, sym, ap, ◌∙◌, arith, inl, inr, List, [], ◌∷◌,
  ◌++◌, find?, any, update_where, Bool-cases, ==-refl, subst,
}
use tflive.Common.Results.{ok, guard, or_fail, >>=-eq-ok, ok-eq-ok}
use tflive.Domain.{Text, no_text}
use tflive.Queue.Specs.{
  Request, SpecRegistry, Resolved, resolve, is_job, spec_of, unknown_kind, underivable_key,
  empty_key,
}
use tflive.Queue.Store.{
  WorkRow, WorkQueue, pending_of, new_row, coalesced, enqueue_resolved, enqueue_requests,
}

any-append :
    {A : Type 0} (p : A → Bool) (xs : List A) (y : A) → p y ≡ true → any p (xs ++ y ∷ []) ≡ true
any-append p [] y h = ground arith
any-append p (x ∷ xs) y h = ground (arith, any-append p xs y h)

any-coalesced :
    (resolved : Resolved) (rows : List WorkRow)
    → any
        (pending_of resolved.kind resolved.key)
        (update_where (pending_of resolved.kind resolved.key) (coalesced resolved) rows)
      ≡ any (pending_of resolved.kind resolved.key) rows
any-coalesced resolved [] = refl
any-coalesced resolved (r ∷ rows) = elim (Bool-cases (pending_of resolved.kind resolved.key r)) [
  | inl t ↦ rw t (ground (arith, t))
  | inr f ↦ rw f (ground (arith, f, any-coalesced resolved rows))
]

-- Whatever was in the queue, its key has a pending row after an enqueue.
pending-enqueue_resolved :
    (now : ℕ) (resolved : Resolved) (q : WorkQueue)
    → any (pending_of resolved.kind resolved.key) (enqueue_resolved now resolved q).rows ≡ true
unfolding enqueue_resolved
pending-enqueue_resolved now resolved q =
    let p = pending_of resolved.kind resolved.key in
    elim (Bool-cases (any p q.rows)) [
      | inl t ↦ elim (Bool-cases (is_job resolved.mode)) [
        | inl j ↦ rw (t, enqueue_resolved) (rw j t)
        | inr r ↦ rw (t, enqueue_resolved) (rw r (any-coalesced resolved q.rows ∙ t))
      ]
      | inr f ↦
          rw (f, enqueue_resolved)
            (any-append p q.rows (new_row now q.next_id resolved)
              (ground (arith, ==-refl resolved.kind, ==-refl resolved.key)))
    ]

-- A pending row of a key with a payload.
abbrev pub carries : Text → Text → Text → WorkRow → Bool
carries kind key payload r = pending_of kind key r && r.payload == payload

-- A pending row of the key carries the payload, unless the kind's mode leaves one that was there as it was.
abbrev pub Carried : Resolved → Text → WorkQueue → WorkQueue → Type 0
Carried resolved payload q after =
    (any (carries resolved.kind resolved.key payload) after.rows ≡ true)
    ⊎ ((is_job resolved.mode ≡ true)
        × (any (pending_of resolved.kind resolved.key) q.rows ≡ true)
        × (after.rows ≡ q.rows))

any-carries-coalesced :
    (resolved : Resolved) (rows : List WorkRow)
    → any (pending_of resolved.kind resolved.key) rows ≡ true
    → any
        (carries resolved.kind resolved.key resolved.payload)
        (update_where (pending_of resolved.kind resolved.key) (coalesced resolved) rows)
      ≡ true
any-carries-coalesced resolved [] h = cc
any-carries-coalesced resolved (r ∷ rows) h =
    elim (Bool-cases (pending_of resolved.kind resolved.key r)) [
      | inl t ↦ rw t (ground (arith, t, ==-refl resolved.payload))
      | inr f ↦ rw f (ground (arith, f, h, any-carries-coalesced resolved rows))
    ]

enqueue_resolved-Carried :
    (now : ℕ) (resolved : Resolved) (q : WorkQueue)
    → Carried resolved resolved.payload q (enqueue_resolved now resolved q)
unfolding enqueue_resolved
enqueue_resolved-Carried now resolved q =
    let p = pending_of resolved.kind resolved.key in
    elim (Bool-cases (any p q.rows)) [
      | inl t ↦ elim (Bool-cases (is_job resolved.mode)) [
        | inl j ↦ rw (t, enqueue_resolved) (rw j (inr (refl, refl, refl)))
        | inr r ↦ rw (t, enqueue_resolved) (rw r (inl (any-carries-coalesced resolved q.rows t)))
      ]
      | inr f ↦
          rw (f, enqueue_resolved)
            (inl (
              any-append (carries resolved.kind resolved.key resolved.payload) q.rows
                (new_row now q.next_id resolved)
                (ground
                  (arith, ==-refl resolved.kind, ==-refl resolved.key, ==-refl resolved.payload))))
    ]

resolve-payload :
    (specs : SpecRegistry) (request : Request) {resolved : Resolved}
    → resolve specs request ≡ ok resolved
    → resolved.payload ≡ request.payload
unfolding resolve
resolve-payload specs request e =
    let (spec, _, e1) =
      >>=-eq-ok (or_fail (find? (spec_of request.kind) specs) (unknown_kind request.kind)) _ e in
    let (key, _, e2) =
      >>=-eq-ok (or_fail (spec.key request.payload) (underivable_key request.kind)) _ e1 in
    let (_, _, e3) = >>=-eq-ok (guard (not (key == no_text)) (empty_key request.kind)) _ e2 in
    sym (ap (λ r. r.payload) (ok-eq-ok _ refl e3))

pub enqueue_requests-Carried :
    (now : ℕ) (specs : SpecRegistry) (request : Request) (q : WorkQueue) {after : WorkQueue}
    → enqueue_requests now specs (request ∷ []) q ≡ ok after
    → (resolved : Resolved) × (resolve specs request ≡ ok resolved)
      × (any (pending_of resolved.kind resolved.key) after.rows ≡ true)
      × Carried resolved request.payload q after
unfolding enqueue_requests
enqueue_requests-Carried now specs request q e =
    let (resolved, f, e1) = >>=-eq-ok (resolve specs request) _ e in
    let same = ok-eq-ok _ refl e1 in
    (
      resolved,
      f,
      ap (λ w. any (pending_of resolved.kind resolved.key) w.rows) (sym same)
          ∙ pending-enqueue_resolved now resolved q,
      subst (λ w. Carried resolved request.payload q w) same
          (subst (λ payload. Carried resolved payload q (enqueue_resolved now resolved q))
            (resolve-payload specs request f) (enqueue_resolved-Carried now resolved q)),
    )
