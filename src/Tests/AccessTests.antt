-- ===== src/Tests/AccessTests.antt =====
-- A tenant with stacks, runs of the listing, and instances of the theorems on access.
use tflive.Common.{
  map, ◌<◌, ◌≡◌, refl, true, false, List, [], ◌∷◌, some, arith, All, keep, length, if◌then◌else◌,
}
use tflive.Common.Results.{ok, err, each}
use tflive.Common.Chars.{Chars, characters, same_chars, contains_any, before}
use tflive.Common.Sorting.{sort, Unlike}
use tflive.Authorization.Vocabulary.{
  Subject, Object, safe_tuple_token, string_of, subject_from_oidc_sub, object_from_id, type_stack,
  new_identifier, object_valid, identifier_valid,
}
use tflive.Authorization.Relations.{relation_can_view, relation_valid, relation_can_operate}
use tflive.Authorization.Server.{Server, CheckAnswer}
use tflive.Authorization.Checks.{check_key, can}
use tflive.Access.Requests.{
  AccessError, require_principal_and_authorizer, require_principal, authorize_stack,
}
use tflive.Access.Stacks.{Stack, stack_page_order_before, list_stacks, list_accessible_stacks}
use tflive.Access.Pages.{same_id}
use tflive.Access.Capabilities.{all_capabilities, resolve_stacks_capabilities}
use tflive.Access.Questions.{signed_in, administer_check, authorize_stack-decided}
use tflive.Access.Visibility.{NamesObject, view_check, list_accessible_stacks-visible}
use tflive.Access.Projection.{resolve_entry, resolve_stacks_capabilities-each}
use tflive.Tests.AuthorizationTests.{
  ann, ann_subject, network, decide, sample_server, sample_server-IsFaithful, ann_named,
}

abbrev network_stack : Stack
network_stack = record { id = network; tenant_id = 2; created_at = 5 }

abbrev database_stack : Stack
database_stack = record { id = characters "db"; tenant_id = 2; created_at = 9 }

abbrev foreign_stack : Stack
foreign_stack = record { id = characters "x"; tenant_id = 3; created_at = 7 }

abbrev stacks : List Stack
stacks = network_stack ∷ foreign_stack ∷ database_stack ∷ []

newest_first : list_stacks stacks 2 ≡ database_stack ∷ network_stack ∷ []
unfolding list_stacks sort stack_page_order_before before
newest_first = refl

different : Unlike same_id stacks
unfolding same_chars
different = ((refl, (refl, tt)), ((refl, tt), (tt, tt)))

names_fit : All NamesObject (list_stacks stacks 2)
unfolding list_stacks sort stack_page_order_before before safe_tuple_token contains_any
names_fit = (refl, (refl, tt))

two_stacks : length (list_stacks stacks 2) < 3
unfolding list_stacks sort stack_page_order_before before
two_stacks = omega arith

list_accessible_stacks-visible_example :
    list_accessible_stacks 3 (signed_in ann sample_server) stacks 2
    ≡ some (
        ok (
          if decide (check_key ann_subject administer_check)
          then list_stacks stacks 2
          else keep (λ s. decide (check_key ann_subject (view_check s))) (list_stacks stacks 2)))
list_accessible_stacks-visible_example =
    list_accessible_stacks-visible sample_server decide sample_server-IsFaithful ann ann_subject
      ann_named stacks 2 different names_fit 3 two_stacks

-- Ann sees the network only.
ann_sees :
    (if decide (check_key ann_subject administer_check)
      then list_stacks stacks 2
      else keep (λ s. decide (check_key ann_subject (view_check s))) (list_stacks stacks 2))
    ≡ network_stack ∷ []
unfolding decide string_of same_chars list_stacks sort stack_page_order_before before
ann_sees = refl

no_administrator : decide (check_key ann_subject administer_check) ≡ false
unfolding decide string_of same_chars
no_administrator = refl

ids_fit : All (λ id. safe_tuple_token id ≡ true) (network ∷ characters "db" ∷ [])
unfolding safe_tuple_token contains_any
ids_fit = (refl, (refl, tt))

resolve_stacks_capabilities-each_example :
    resolve_stacks_capabilities (signed_in ann sample_server) (network ∷ characters "db" ∷ []) ≡ (
      if decide (check_key ann_subject administer_check)
      then ok (map (λ id. (id, all_capabilities)) (network ∷ characters "db" ∷ []))
      else each (resolve_entry (signed_in ann sample_server)) (network ∷ characters "db" ∷ []))
resolve_stacks_capabilities-each_example =
    resolve_stacks_capabilities-each sample_server decide sample_server-IsFaithful ann ann_subject
      ann_named (network ∷ characters "db" ∷ []) ids_fit

ann_let_through :
    authorize_stack (signed_in ann sample_server) network relation_can_view AccessError.forbidden
    ≡ ok tt
unfolding authorize_stack require_principal_and_authorizer require_principal object_from_id
    new_identifier can subject_from_oidc_sub object_valid identifier_valid relation_valid
    safe_tuple_token contains_any decide string_of same_chars
ann_let_through = refl

ann_refused :
    authorize_stack (signed_in ann sample_server) network relation_can_operate AccessError.forbidden
    ≡ err AccessError.forbidden
unfolding authorize_stack require_principal_and_authorizer require_principal object_from_id
    new_identifier can subject_from_oidc_sub object_valid identifier_valid relation_valid
    safe_tuple_token contains_any decide string_of same_chars
ann_refused = refl

authorize_stack-decided_example :
    (sub : Chars) × (server : Server) × (subject : Subject) × (object : Object)
    × (require_principal_and_authorizer (signed_in ann sample_server) ≡ ok (sub, server))
    × (subject_from_oidc_sub sub ≡ ok subject)
    × (object_from_id type_stack network ≡ ok object)
    × (server.check (check_key subject (record { relation = relation_can_view; object = object }))
        ≡ CheckAnswer.decided true)
authorize_stack-decided_example =
    authorize_stack-decided (signed_in ann sample_server) network relation_can_view
      AccessError.forbidden ann_let_through
