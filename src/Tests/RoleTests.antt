-- ===== src/Tests/RoleTests.antt =====
-- Stacks with owners, runs of the role commands, and instances of the last-owner rule.
use tflive.Common.{◌≤◌, ◌≡◌, refl, true, List, [], ◌∷◌, Option, none, some, arith, count}
use tflive.Common.Results.{ok, err}
use tflive.Common.Chars.{Chars, characters, same_chars, contains_any, before, after_prefix}
use tflive.Common.Sorting.{sort}
use tflive.Authorization.Vocabulary.{
  Object, safe_tuple_token, new_identifier, string_of, identifier_valid, subject_valid,
  object_valid, subject_types, subject_from_oidc_sub, object_from_id, type_stack,
}
use tflive.Authorization.Relations.{
  relation_valid, grantable, structural, new_relation, grant_relation, grant_valid, new_grant,
}
use tflive.Authorization.Server.{Server, TupleKey, CheckAnswer}
use tflive.Authorization.Checks.{can}
use tflive.Authorization.Grants.{
  add_grants, add_grant, grant_from_tuple, grant_of_user, grant_before, valid_grants,
  valid_grants_from, write_keys, delete_keys,
}
use tflive.Access.Requests.{
  Caller, authorize_stack, require_principal, require_principal_and_authorizer,
}
use tflive.Roles.Commands.{
  RoleStore, RoleError, Outcome, AssignStackRoleCommand, RevokeStackRoleCommand, audit_grant,
  audit_revoke, is_owner, is_of, assign_in_tx, revoke_in_tx, revoke_any, revoke_grants,
  grant_missing, assign_stack_role, revoke_stack_role, last_owner,
}
use tflive.Roles.Tuples.{stored}
use tflive.Roles.Rules.{assign_stack_role-owner, revoke_stack_role-owner}
use tflive.Tests.TupleList.{
  tuple_list, tuple_list-KeepsTuples, list_tuples, remove_key, remove_keys, same_key,
}
use tflive.Tests.AuthorizationTests.{ann, ann_subject, network, ann_named}

-- A server that lets the caller do everything.
abbrev permissive : Server
permissive = record {
  check = λ key. CheckAnswer.decided true;
  batch_check = λ items. none;
  read = λ object token. none;
}

abbrev administrator : Caller
administrator = record { principal = some (characters "root"); authorizer = some permissive }

abbrev network_object : Object
network_object = record { identifier = record { object_type = type_stack; id = network } }

abbrev role_key : Chars → Chars → TupleKey
role_key user role = record { user = user; relation = role; object = characters "stack:net" }

abbrev user_ann : Chars
user_ann = characters "user:ann"

abbrev two_owners : RoleStore
two_owners = record {
  tuples =
      role_key user_ann (characters "owner")
      ∷ role_key (characters "user:bob") (characters "owner")
      ∷ role_key (characters "platform:openplan") (characters "parent")
      ∷ [];
  audit_events = [];
}

-- The last owner, who is also an approver.
abbrev approving_owner : RoleStore
approving_owner = record {
  tuples = role_key user_ann (characters "owner") ∷ role_key user_ann (characters "approver") ∷ [];
  audit_events = [];
}

abbrev sole_owner : RoleStore
sole_owner = record { tuples = role_key user_ann (characters "owner") ∷ []; audit_events = [] }

abbrev demote_ann : AssignStackRoleCommand
demote_ann = record {
  tenant_id = 2;
  stack_id = network;
  user_sub = ann;
  role = characters "viewer";
}

abbrev revoke_ann : RevokeStackRoleCommand
revoke_ann = record { tenant_id = 2; stack_id = network; user_sub = ann }

abbrev tuples_of : Outcome RoleStore → List TupleKey
tuples_of (ok store) = store.tuples
tuples_of (err failure) = []

abbrev refusal_of : Outcome RoleStore → Option RoleError
refusal_of (ok store) = none
refusal_of (err failure) = some failure

demote : RoleStore → Outcome RoleStore
unfolding assign_stack_role assign_in_tx revoke_stack_role revoke_in_tx revoke_any revoke_grants
    grant_missing authorize_stack require_principal require_principal_and_authorizer can
    relation_valid object_from_id new_identifier subject_from_oidc_sub safe_tuple_token contains_any
    grant_relation new_relation grantable structural list_tuples remove_keys remove_key same_key
    add_grants add_grant grant_from_tuple grant_of_user grant_before sort new_grant grant_valid
    subject_valid object_valid identifier_valid subject_types valid_grants valid_grants_from
    write_keys delete_keys string_of same_chars before after_prefix
demote store = assign_stack_role tuple_list administrator (λ sub. true) demote_ann store

revoke : RoleStore → Outcome RoleStore
unfolding assign_stack_role assign_in_tx revoke_stack_role revoke_in_tx revoke_any revoke_grants
    grant_missing authorize_stack require_principal require_principal_and_authorizer can
    relation_valid object_from_id new_identifier subject_from_oidc_sub safe_tuple_token contains_any
    grant_relation new_relation grantable structural list_tuples remove_keys remove_key same_key
    add_grants add_grant grant_from_tuple grant_of_user grant_before sort new_grant grant_valid
    subject_valid object_valid identifier_valid subject_types valid_grants valid_grants_from
    write_keys delete_keys string_of same_chars before after_prefix
revoke store = revoke_stack_role tuple_list administrator revoke_ann store

abbrev demoted : RoleStore
demoted = record {
  tuples =
      role_key (characters "user:bob") (characters "owner")
      ∷ role_key (characters "platform:openplan") (characters "parent")
      ∷ role_key user_ann (characters "viewer")
      ∷ [];
  audit_events =
      record {
        actor_subject = characters "root";
        action = audit_grant;
        target_user = ann;
        tenant_id = 2;
        stack_id = network;
        old_role = characters "owner";
        new_role = characters "viewer";
      }
      ∷ [];
}

abbrev revoked : RoleStore
revoked = record {
  tuples =
      role_key (characters "user:bob") (characters "owner")
      ∷ role_key (characters "platform:openplan") (characters "parent")
      ∷ [];
  audit_events =
      record {
        actor_subject = characters "root";
        action = audit_revoke;
        target_user = ann;
        tenant_id = 2;
        stack_id = network;
        old_role = characters "owner";
        new_role = [];
      }
      ∷ [];
}

demote-two_owners : demote two_owners ≡ ok demoted
unfolding demote
demote-two_owners = refl

revoke-two_owners : revoke two_owners ≡ ok revoked
unfolding revoke
revoke-two_owners = refl

demote-two_owners_lem :
    assign_stack_role tuple_list administrator (λ sub. true) demote_ann two_owners ≡ ok demoted
unfolding demote
demote-two_owners_lem = demote-two_owners

revoke-two_owners_lem :
    revoke_stack_role tuple_list administrator revoke_ann two_owners ≡ ok revoked
unfolding revoke
revoke-two_owners_lem = revoke-two_owners

demote-sole_owner : refusal_of (demote sole_owner) ≡ some last_owner
unfolding demote
demote-sole_owner = refl

revoke-sole_owner : refusal_of (revoke sole_owner) ≡ some last_owner
unfolding revoke
revoke-sole_owner = refl

-- A last owner who also holds a role that comes first in the list is demoted, and none is left.
demote-approving_owner :
    tuples_of (demote approving_owner) ≡ role_key user_ann (characters "viewer") ∷ []
unfolding demote
demote-approving_owner = refl

abbrev owning_viewer : RoleStore
owning_viewer = record {
  tuples = role_key user_ann (characters "owner") ∷ role_key user_ann (characters "viewer") ∷ [];
  audit_events = [];
}

-- So is one revoked who holds a role that comes last in it.
revoke-owning_viewer : tuples_of (revoke owning_viewer) ≡ []
unfolding revoke
revoke-owning_viewer = refl

revoke-owning_viewer_allowed : refusal_of (revoke owning_viewer) ≡ none
unfolding revoke
revoke-owning_viewer_allowed = refl

network_named : object_from_id type_stack network ≡ ok network_object
unfolding object_from_id new_identifier safe_tuple_token contains_any
network_named = refl

two_owners_lem : 1 ≤ count (stored is_owner network_object) two_owners.tuples
unfolding demote
two_owners_lem = omega arith

one_role_lem : count (stored (is_of ann_subject) network_object) two_owners.tuples ≤ 1
unfolding demote
one_role_lem = omega arith

assign_stack_role-owner_example : 1 ≤ count (stored is_owner network_object) demoted.tuples
assign_stack_role-owner_example =
    assign_stack_role-owner tuple_list tuple_list-KeepsTuples administrator (λ sub. true) demote_ann
      network_object ann_subject two_owners demoted network_named ann_named two_owners_lem
      one_role_lem demote-two_owners_lem

revoke_stack_role-owner_example : 1 ≤ count (stored is_owner network_object) revoked.tuples
revoke_stack_role-owner_example =
    revoke_stack_role-owner tuple_list tuple_list-KeepsTuples administrator revoke_ann
      network_object ann_subject two_owners revoked network_named ann_named two_owners_lem
      one_role_lem revoke-two_owners_lem
