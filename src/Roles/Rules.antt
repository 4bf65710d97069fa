-- ===== src/Roles/Rules.antt =====
-- The last-owner rule of the role commands of internal/app/service.go, for the whole handlers.
use tflive.Common.{◌≤◌, ◌≡◌, Bool, true, arith, count}
use tflive.Common.Results.{ok, err, ◌>>=◌, guard, >>=-eq-ok}
use tflive.Common.Chars.{Chars, same_chars, same_chars_refl}
use tflive.Authorization.Vocabulary.{
  Checked, Subject, Object, object_from_id, subject_from_oidc_sub, new_identifier, type_stack,
  type_user,
}
use tflive.Authorization.Relations.{
  Relation, grant_relation, new_relation, relation_can_manage_access,
}
use tflive.Access.Requests.{AccessError, Caller, authorize_stack, require_principal}
use tflive.Roles.Commands.{
  TupleServer, KeepsTuples, RoleStore, AssignStackRoleCommand, RevokeStackRoleCommand, or_refused,
  or_invalid, is_owner, is_of, assign_stack_role, revoke_stack_role, user_not_provisioned,
}
use tflive.Roles.Tuples.{stored}
use tflive.Roles.Owners.{assign_in_tx_lem, revoke_in_tx_lem}

subject_is_user :
    (sub : Chars) {subject : Subject}
    → subject_from_oidc_sub sub ≡ ok subject
    → same_chars subject.identifier.object_type type_user ≡ true
unfolding subject_from_oidc_sub new_identifier
subject_is_user sub named = ground (arith, same_chars_refl type_user)

grant_relation-value :
    (role : Chars) {relation : Relation} → grant_relation role ≡ ok relation → relation.value ≡ role
unfolding grant_relation new_relation
grant_relation-value role e = ground arith

or_invalid-eq-ok : {A : Type 0} (r : Checked A) {v : A} → or_invalid r ≡ ok v → r ≡ ok v
or_invalid-eq-ok (err failure) e = cc
or_invalid-eq-ok (ok v) e = ground arith

-- Where the stored tuples behave as documented, the stack has an owner and the user holds one role on
-- it at most, an assignment that succeeds leaves the stack with an owner.
pub assign_stack_role-owner :
    (server : TupleServer)
    → KeepsTuples server
    → (caller : Caller) (provisioned : Chars → Bool) (command : AssignStackRoleCommand)
      (object : Object) (subject : Subject) (store after : RoleStore)
    → object_from_id type_stack command.stack_id ≡ ok object
    → subject_from_oidc_sub command.user_sub ≡ ok subject
    → 1 ≤ count (stored is_owner object) store.tuples
    → count (stored (is_of subject) object) store.tuples ≤ 1
    → assign_stack_role server caller provisioned command store ≡ ok after
    → 1 ≤ count (stored is_owner object) after.tuples
unfolding assign_stack_role
assign_stack_role-owner server keeps caller provisioned command object subject store after stack
      user some_owner few e =
    let (principal, known, e1) = >>=-eq-ok (or_refused (require_principal caller)) _ e in
    let (allowed, checked, e2) =
      >>=-eq-ok
        (or_refused (
          authorize_stack caller command.stack_id relation_can_manage_access AccessError.forbidden))
        _ e1 in
    let (role, parsed, e3) =
      >>=-eq-ok (or_invalid (grant_relation command.role) >>= (λ role. ok tt)) _ e2 in
    let (found, profile, e4) =
      >>=-eq-ok (guard (provisioned command.user_sub) user_not_provisioned) _ e3 in
    let e5 = rw (stack, user) at e4 in
    let (desired, wanted, e6) = >>=-eq-ok (or_invalid (grant_relation command.role)) _ e5 in
    assign_in_tx_lem server keeps principal subject object command desired store after
      (subject_is_user command.user_sub user)
      (grant_relation-value command.role (or_invalid-eq-ok (grant_relation command.role) wanted))
      some_owner few e6

-- The same of a revocation.
pub revoke_stack_role-owner :
    (server : TupleServer)
    → KeepsTuples server
    → (caller : Caller) (command : RevokeStackRoleCommand) (object : Object) (subject : Subject)
      (store after : RoleStore)
    → object_from_id type_stack command.stack_id ≡ ok object
    → subject_from_oidc_sub command.user_sub ≡ ok subject
    → 1 ≤ count (stored is_owner object) store.tuples
    → count (stored (is_of subject) object) store.tuples ≤ 1
    → revoke_stack_role server caller command store ≡ ok after
    → 1 ≤ count (stored is_owner object) after.tuples
unfolding revoke_stack_role
revoke_stack_role-owner server keeps caller command object subject store after stack user some_owner
      few e =
    let (principal, known, e1) = >>=-eq-ok (or_refused (require_principal caller)) _ e in
    let (allowed, checked, e2) =
      >>=-eq-ok
        (or_refused (
          authorize_stack caller command.stack_id relation_can_manage_access AccessError.forbidden))
        _ e1 in
    let e3 = rw (stack, user) at e2 in
    revoke_in_tx_lem server keeps principal subject object command store after some_owner few e3
