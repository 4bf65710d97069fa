-- ===== src/Roles/Owners.antt =====
-- A stack keeps an owner: the last-owner rule of the role commands of internal/app/service.go.
use tflive.Common.{
  ℕ, ◌+◌, ◌≤◌, ◌==◌, ◌≡◌, refl, sym, ◌∙◌, subst, Bool, true, false, ◌&&◌, not, List, [], ◌∷◌, arith,
  Bool-cases, inl, inr, any, count, keep, length, All-keep,
}
use tflive.Common.Results.{ok, guard, >>=-eq-ok}
use tflive.Common.Chars.{Chars, same_chars, same_chars_refl, same_chars_eq}
use tflive.Authorization.Vocabulary.{Subject, Object, type_user}
use tflive.Authorization.Relations.{Relation, Grant, relation_owner}
use tflive.Roles.Commands.{
  TupleServer, KeepsTuples, RoleStore, RoleError, AssignStackRoleCommand, RevokeStackRoleCommand,
  authorized, is_owner, is_of, same_relation, first_role, last_role, revoke_any, grant_missing,
  assign_in_tx, revoke_in_tx, last_owner,
}
use tflive.Roles.Tuples.{
  stored, authorized-eq-ok, count-revoke_any, count-grant_missing, count-grant_missing_new,
}

module _ {ℓ} {A : Type ℓ} (p : A → Bool) where
  length-keep : (xs : List A) → length (keep p xs) ≡ count p xs
  length-keep [] = refl
  length-keep (x ∷ xs) = ground (arith, length-keep xs)

  count-keep_le : (q : A → Bool) (xs : List A) → count q (keep p xs) ≤ count q xs
  count-keep_le q [] = omega arith
  count-keep_le q (x ∷ xs) = ground (arith, count-keep_le q xs)

count-keep-not {ℓ} :
    {A : Type ℓ} (p : A → Bool) (xs : List A) → count p (keep (λ x. not (p x)) xs) ≡ 0
count-keep-not p [] = refl
count-keep-not p (x ∷ xs) = ground (arith, count-keep-not p xs)

-- A subject with one role at most, that is not the last owner, is not all the owners.
held_owners :
    (held : List Grant) (owner_count : ℕ)
    → length held ≤ 1
    → 1 ≤ owner_count
    → (same_chars (first_role held) relation_owner.value && owner_count == 1) ≡ false
    → count is_owner held + 1 ≤ owner_count
held_owners [] owner_count few some_owner allowed = omega arith
held_owners (g ∷ []) owner_count few some_owner allowed = ground arith
held_owners (g ∷ h ∷ held) owner_count few some_owner allowed = absurd (omega arith)

last_role-first_role : (held : List Grant) → length held ≤ 1 → last_role held ≡ first_role held
last_role-first_role [] few = refl
last_role-first_role (g ∷ []) few = refl
last_role-first_role (g ∷ h ∷ held) few = absurd (omega arith)

guard-not :
    (b : Bool) (failure : RoleError) {done : Unit {0}} → guard (not b) failure ≡ ok done → b ≡ false
guard-not true failure e = cc
guard-not false failure e = refl

not_last :
    (first owner one : Bool)
    → (first && not owner && one) ≡ false
    → owner ≡ false
    → (first && one) ≡ false
not_last first owner one e f = ground arith

owner_relation : (g : Grant) → g.relation ≡ relation_owner → is_owner g ≡ true
owner_relation g e = rw e (same_chars_refl relation_owner.value)

count-stale_owners :
    (desired : Relation)
    → desired ≡ relation_owner
    → (held : List Grant)
    → count is_owner (keep (λ g. not (same_relation g.relation desired)) held) ≡ 0
count-stale_owners desired promoted held =
    subst (λ (d : Relation). count is_owner (keep (λ g. not (same_relation g.relation d)) held) ≡ 0)
      (sym promoted) (count-keep-not is_owner held)

module _ (server : TupleServer) (keeps : KeepsTuples server) (principal : Chars) (subject : Subject)
    (object : Object) where
  abbrev pub owners : RoleStore → ℕ
  owners store = count (stored is_owner object) store.tuples

  abbrev pub roles_of_subject : RoleStore → ℕ
  roles_of_subject store = count (stored (is_of subject) object) store.tuples

  pub revoke_in_tx_lem :
      (command : RevokeStackRoleCommand) (store after : RoleStore)
      → 1 ≤ owners store
      → roles_of_subject store ≤ 1
      → revoke_in_tx server principal command subject object store ≡ ok after
      → 1 ≤ owners after
  unfolding revoke_in_tx
  revoke_in_tx_lem command store after some_owner few e =
      let (grants, read, e1) = >>=-eq-ok (authorized (server.list store.tuples object)) _ e in
      let listing = authorized-eq-ok (server.list store.tuples object) read in
      let held = keep (is_of subject) grants in
      let (counted, valid) = keeps.lists is_owner store.tuples object grants listing in
      let one_role : length held ≤ 1 = omega (
        arith,
        length-keep (is_of subject) grants,
        (keeps.lists (is_of subject) store.tuples object grants listing).0,
      ) in
      let last : Bool =
        same_chars (last_role held) relation_owner.value && count is_owner grants == 1 in
      let (allowed, guarded, e2) = >>=-eq-ok (guard (not last) last_owner) _ e1 in
      let (revoked, taken, done) = >>=-eq-ok (revoke_any server held store.tuples) _ e2 in
      let left =
        count-revoke_any server keeps is_owner object held store.tuples revoked
          (All-keep _ (is_of subject) grants valid) taken in
      let others =
        held_owners held (count is_owner grants) one_role (omega (arith, counted))
          (rw (last_role-first_role held one_role) at (guard-not last last_owner guarded)) in
      let result : after.tuples ≡ revoked = ground arith in
      rw result (omega (arith, counted, left, others))

  -- What an assignment takes away leaves an owner, or the desired role is that of an owner and is new.
  pub assign_in_tx_lem :
      (command : AssignStackRoleCommand) (desired : Relation) (store after : RoleStore)
      → same_chars subject.identifier.object_type type_user ≡ true
      → desired.value ≡ command.role
      → 1 ≤ owners store
      → roles_of_subject store ≤ 1
      → assign_in_tx server principal command subject object desired store ≡ ok after
      → 1 ≤ owners after
  unfolding assign_in_tx
  assign_in_tx_lem command desired store after user named some_owner few e =
      let (grants, read, e1) = >>=-eq-ok (authorized (server.list store.tuples object)) _ e in
      let listing = authorized-eq-ok (server.list store.tuples object) read in
      let held = keep (is_of subject) grants in
      let stale = keep (λ g. not (same_relation g.relation desired)) held in
      let already : Bool = any (λ g. same_relation g.relation desired) held in
      let to_owner : Bool = same_chars command.role relation_owner.value in
      let (counted, valid) = keeps.lists is_owner store.tuples object grants listing in
      let one_role : length held ≤ 1 = omega (
        arith,
        length-keep (is_of subject) grants,
        (keeps.lists (is_of subject) store.tuples object grants listing).0,
      ) in
      let one : Bool = count is_owner grants == 1 in
      let first : Bool = same_chars (first_role held) relation_owner.value in
      let (allowed, guarded, e2) =
        >>=-eq-ok (guard (not (first && not to_owner && one)) last_owner) _ e1 in
      let (revoked, taken, e3) = >>=-eq-ok (revoke_any server stale store.tuples) _ e2 in
      let (granted, given, done) =
        >>=-eq-ok (grant_missing server already subject object desired revoked) _ e3 in
      let left =
        count-revoke_any server keeps is_owner object stale store.tuples revoked
          (All-keep _ _ held (All-keep _ (is_of subject) grants valid)) taken in
      let added =
        count-grant_missing server keeps is_owner object subject desired already revoked granted
          given in
      let result : after.tuples ≡ granted = ground arith in
      rw result (elim (Bool-cases to_owner) [
        | inl owner ↦
            (let promoted : desired ≡ relation_owner =
                ground (arith, same_chars_eq command.role relation_owner.value) in
              elim (Bool-cases already) [
                | inl has_it ↦
                    omega (arith, counted, left, added, count-stale_owners desired promoted held)
                | inr lacks_it ↦
                    count-grant_missing_new server keeps is_owner object subject desired revoked
                      granted user (λ g is_desired. owner_relation g (is_desired ∙ promoted))
                      (rw lacks_it at given)
              ])
        | inr other ↦ omega (
          arith,
          counted,
          left,
          added,
          count-keep_le (λ g. not (same_relation g.relation desired)) is_owner held,
          held_owners held (count is_owner grants) one_role (omega (arith, counted))
              (not_last first to_owner one (guard-not _ last_owner guarded) other),
        )
      ])
