-- ===== src/Roles/Commands.antt =====
-- AssignStackRole and RevokeStackRole of internal/app/service.go. The transaction's view of OpenFGA, a
-- parameter, lists the grants on a stack and writes and deletes tuples in the same database.
use tflive.Common.{
  ◌==◌, Bool, true, false, ◌&&◌, not, List, [], ◌∷◌, ◌++◌, Option, some, any, count, keep, ◌≡◌, ◌+◌,
  All,
}
use tflive.Common.Results.{Result, ok, err, ◌>>=◌, ◌>>◌, guard, or_fail}
use tflive.Common.Chars.{Chars, same_chars}
use tflive.Domain.{Text}
use tflive.Authorization.Vocabulary.{
  AuthError, Checked, Subject, Object, string_of, subject_from_oidc_sub, object_from_id, type_stack,
}
use tflive.Authorization.Relations.{
  Relation, Grant, grant_relation, new_grant, grant_valid, relation_owner,
  relation_can_manage_access,
}
use tflive.Authorization.Server.{TupleKey}
use tflive.Authorization.Grants.{write_keys, delete_keys}
use tflive.Authorization.Listing.{stored_grant}
use tflive.Access.Requests.{AccessError, Answer, Caller, authorize_stack, require_principal}

pub data RoleError : Type 0 where
  refused : AccessError → RoleError
  unauthorized_tuples : AuthError → RoleError
  invalid_command user_not_provisioned last_owner write_failed : RoleError

abbrev pub Outcome {ℓ} : Type ℓ → Type ℓ
Outcome A = Result RoleError A

abbrev pub or_refused {ℓ} : {A : Type ℓ} → Answer A → Outcome A
or_refused (err failure) = err (refused failure)
or_refused (ok value) = ok value

abbrev pub authorized {ℓ} : {A : Type ℓ} → Checked A → Outcome A
authorized (err failure) = err (unauthorized_tuples failure)
authorized (ok value) = ok value

abbrev pub or_invalid {ℓ} : {A : Type ℓ} → Checked A → Outcome A
or_invalid (err failure) = err invalid_command
or_invalid (ok value) = ok value

pub data AuditAction : Type 0 where
  audit_grant audit_revoke : AuditAction

pub record AuditEvent : Type 0 where
  pub actor_subject : Chars
  pub action : AuditAction
  pub target_user : Chars
  pub tenant_id : Text
  pub stack_id : Chars
  pub old_role : Chars
  pub new_role : Chars

-- What a transaction on roles reads and writes: the stored tuples and the audit events.
pub record RoleStore : Type 0 where
  pub tuples : List TupleKey
  pub audit_events : List AuditEvent

-- OpenFGA on the tuples of the transaction.
pub record TupleServer : Type 0 where
  pub list : List TupleKey → Object → Checked (List Grant)
  pub write : List TupleKey → List TupleKey → Option (List TupleKey)
  pub delete : List TupleKey → List TupleKey → Option (List TupleKey)

-- Its documented behaviour: a list has the grants among the stored tuples, a write adds the tuples and
-- a delete removes them, or nothing happens.
pub record KeepsTuples (server : TupleServer) : Type 0 where
  pub lists :
      (test : Grant → Bool) (tuples : List TupleKey) (object : Object) (grants : List Grant)
      → server.list tuples object ≡ ok grants
      → (count test grants ≡ count (λ key. stored_grant test object (some key)) tuples)
        × All (λ g. (grant_valid g ≡ true) × (g.object ≡ object)) grants
  pub writes :
      (test : TupleKey → Bool) (tuples keys after : List TupleKey)
      → server.write tuples keys ≡ some after
      → count test after ≡ count test tuples + count test keys
  pub deletes :
      (test : TupleKey → Bool) (tuples keys after : List TupleKey)
      → server.delete tuples keys ≡ some after
      → count test after + count test keys ≡ count test tuples

abbrev pub same_relation : Relation → Relation → Bool
same_relation r s = same_chars r.value s.value

abbrev pub is_owner : Grant → Bool
is_owner grant = same_relation grant.relation relation_owner

abbrev pub is_of : Subject → Grant → Bool
is_of subject grant = same_chars (string_of grant.subject.identifier) (string_of subject.identifier)

unfoldable pub revoke_grants : TupleServer → List Grant → List TupleKey → Outcome (List TupleKey)
revoke_grants server grants tuples = do
  keys ← authorized (delete_keys grants)
  or_fail (server.delete tuples keys) write_failed

-- `if len(...) > 0 { Revoke }`.
unfoldable pub revoke_any : TupleServer → List Grant → List TupleKey → Outcome (List TupleKey)
revoke_any server [] tuples = ok tuples
revoke_any server (g ∷ gs) tuples = revoke_grants server (g ∷ gs) tuples

-- `if !alreadyHeld { NewGrant, Grant }`.
unfoldable pub grant_missing :
    TupleServer → Bool → Subject → Object → Relation → List TupleKey → Outcome (List TupleKey)
grant_missing server true subject object desired tuples = ok tuples
grant_missing server false subject object desired tuples = do
  grant ← authorized (new_grant subject object desired)
  keys ← authorized (write_keys (grant ∷ []))
  or_fail (server.write tuples keys) write_failed

-- The role that an assignment takes for the current one: the first in the order of the list.
abbrev pub first_role : List Grant → Chars
first_role [] = []
first_role (g ∷ gs) = g.relation.value

-- The role that a revocation takes for it: the last.
abbrev pub last_role : List Grant → Chars
last_role [] = []
last_role (g ∷ []) = g.relation.value
last_role (g ∷ h ∷ gs) = last_role (h ∷ gs)

pub record AssignStackRoleCommand : Type 0 where
  pub tenant_id : Text
  pub stack_id : Chars
  pub user_sub : Chars
  pub role : Chars

-- The transaction of an assignment.
unfoldable pub assign_in_tx :
    TupleServer
    → Chars
    → AssignStackRoleCommand
    → Subject
    → Object
    → Relation
    → RoleStore
    → Outcome RoleStore
assign_in_tx server principal command subject object desired store = do
  grants ← authorized (server.list store.tuples object)
  let held = keep (is_of subject) grants
  guard
      (not (
        same_chars (first_role held) relation_owner.value
        && not (same_chars command.role relation_owner.value)
        && count is_owner grants == 1))
      last_owner
  revoked ← revoke_any server (keep (λ g. not (same_relation g.relation desired)) held) store.tuples
  granted ←
      grant_missing server (any (λ g. same_relation g.relation desired) held) subject object desired
        revoked
  ok (record {
    tuples = granted;
    audit_events =
        store.audit_events
        ++ record {
          actor_subject = principal;
          action = audit_grant;
          target_user = command.user_sub;
          tenant_id = command.tenant_id;
          stack_id = command.stack_id;
          old_role = first_role held;
          new_role = command.role;
        }
          ∷ [];
  })

-- The unit of work and the user repository are configured; `provisioned` tells which subjects the
-- repository knows. A success has no value but the new store: what the code returns are display fields.
unfoldable pub assign_stack_role :
    TupleServer → Caller → (Chars → Bool) → AssignStackRoleCommand → RoleStore → Outcome RoleStore
assign_stack_role server caller provisioned command store = do
  principal ← or_refused (require_principal caller)
  or_refused
      (authorize_stack caller command.stack_id relation_can_manage_access AccessError.forbidden)
  or_invalid (grant_relation command.role) >>= (λ role. ok tt)
  guard (provisioned command.user_sub) user_not_provisioned
  object ← authorized (object_from_id type_stack command.stack_id)
  subject ← or_invalid (subject_from_oidc_sub command.user_sub)
  desired ← or_invalid (grant_relation command.role)
  assign_in_tx server principal command subject object desired store

pub record RevokeStackRoleCommand : Type 0 where
  pub tenant_id : Text
  pub stack_id : Chars
  pub user_sub : Chars

-- The transaction of a revocation.
unfoldable pub revoke_in_tx :
    TupleServer → Chars → RevokeStackRoleCommand → Subject → Object → RoleStore → Outcome RoleStore
revoke_in_tx server principal command subject object store = do
  grants ← authorized (server.list store.tuples object)
  let held = keep (is_of subject) grants
  guard (not (same_chars (last_role held) relation_owner.value && count is_owner grants == 1))
      last_owner
  revoked ← revoke_any server held store.tuples
  ok (record {
    tuples = revoked;
    audit_events =
        store.audit_events
        ++ record {
          actor_subject = principal;
          action = audit_revoke;
          target_user = command.user_sub;
          tenant_id = command.tenant_id;
          stack_id = command.stack_id;
          old_role = last_role held;
          new_role = [];
        }
          ∷ [];
  })

unfoldable pub revoke_stack_role :
    TupleServer → Caller → RevokeStackRoleCommand → RoleStore → Outcome RoleStore
revoke_stack_role server caller command store = do
  principal ← or_refused (require_principal caller)
  or_refused
      (authorize_stack caller command.stack_id relation_can_manage_access AccessError.forbidden)
  object ← authorized (object_from_id type_stack command.stack_id)
  subject ← or_invalid (subject_from_oidc_sub command.user_sub)
  revoke_in_tx server principal command subject object store
