-- ===== src/Tests/AuthorizationTests.antt =====
-- A server with a few tuples, runs of the authorization code against it, and instances of its
-- theorems.
use tflive.Common.{
  ℕ, zero, suc, ◌<◌, ==-refl, ◌≡◌, ◌≢◌, refl, Bool, true, false, ◌&&◌, List, [], ◌∷◌, Option, none,
  some, arith, All, length, count, if◌then◌else◌,
}
use tflive.Common.Results.{ok, err, each}
use tflive.Common.Chars.{Chars, characters, same_chars, contains_any, before, after_prefix}
use tflive.Common.Sorting.{InOrder, sort}
use tflive.Authorization.Vocabulary.{
  AuthError, Checked, Subject, Object, safe_tuple_token, new_identifier, string_of,
  identifier_valid, subject_valid, object_valid, subject_types, subject_from_oidc_sub,
  object_from_id, type_user, type_stack,
}
use tflive.Authorization.Relations.{
  Grant, grantable, structural, new_relation, grant_relation, grant_valid, new_grant,
  relation_owner, relation_can_view, relation_can_operate,
}
use tflive.Authorization.Server.{
  Server, TupleKey, Page, CheckAnswer, BatchItem, BatchResult, ItemAnswer, result_at, Distinct,
  IsFaithful,
}
use tflive.Authorization.Checks.{Check, can, can_all}
use tflive.Authorization.Grants.{
  list_grants, read_pages, read_page, next_page, add_grants, add_grant, grant_from_tuple,
  grant_of_user, grant_before, tuple_key,
}
use tflive.Authorization.Rendering.{string_of_injective, grant_from_tuple-tuple_key}
use tflive.Authorization.Batches.{can_all-can}
use tflive.Authorization.Paging.{list_grants_total}
use tflive.Authorization.Answers.{ReadFrom, list_grants-answers}
use tflive.Authorization.Listing.{stored_grant}

abbrev pub ann : Chars
ann = characters "ann"

abbrev pub ann_subject : Subject
ann_subject = record { identifier = record { object_type = type_user; id = ann } }

abbrev bob_subject : Subject
bob_subject = record { identifier = record { object_type = type_user; id = characters "bob" } }

abbrev pub network : Chars
network = characters "net"

abbrev network_object : Object
network_object = record { identifier = record { object_type = type_stack; id = network } }

-- Ann may view the stack of the network, and nothing else is allowed.
unfoldable pub decide : TupleKey → Bool
decide key =
    same_chars key.user (characters "user:ann")
    && same_chars key.relation (characters "can_view")
    && same_chars key.object (characters "stack:net")

abbrev answer_all : List BatchItem → BatchResult
answer_all [] = []
answer_all (item ∷ items) =
    (item.correlation_id, ItemAnswer.item_decided (decide item.key)) ∷ answer_all items

abbrev tuple : Chars → Chars → Option TupleKey
tuple user relation =
    some (record { user = user; relation = relation; object = characters "stack:net" })

-- The stored tuples of the network, on two pages.
abbrev read_network : Chars → ℕ → Option Page
read_network object zero = some (record {
  tuples =
      tuple (characters "platform:openplan") (characters "parent")
      ∷ tuple (characters "user:bob") (characters "viewer")
      ∷ [];
  continuation_token = 1;
})
read_network object (suc zero) = some (record {
  tuples = tuple (characters "user:ann") (characters "owner") ∷ [];
  continuation_token = 0;
})
read_network object (suc (suc token)) = none

abbrev pub sample_server : Server
sample_server = record {
  check = λ key. CheckAnswer.decided (decide key);
  batch_check = λ items. some (answer_all items);
  read = read_network;
}

length-answer_all : (items : List BatchItem) → length (answer_all items) ≡ length items
length-answer_all [] = refl
length-answer_all (item ∷ items) = omega (arith, length-answer_all items)

answers_behind :
    (id : ℕ) (answer : ItemAnswer) (answers : BatchResult) (items : List BatchItem)
    → All (λ item. id ≢ item.correlation_id) items
    → All
        (λ item.
          result_at answers item.correlation_id ≡ some (ItemAnswer.item_decided (decide item.key)))
        items
    → All
        (λ item.
          result_at ((id, answer) ∷ answers) item.correlation_id
          ≡ some (ItemAnswer.item_decided (decide item.key)))
        items
answers_behind id answer answers [] h k = tt
answers_behind id answer answers (item ∷ items) h k =
    (ground (arith, h.0, k.0), answers_behind id answer answers items h.1 k.1)

result_at-answer_all :
    (items : List BatchItem)
    → Distinct items
    → All
        (λ item.
          result_at (answer_all items) item.correlation_id
          ≡ some (ItemAnswer.item_decided (decide item.key)))
        items
result_at-answer_all [] h = tt
result_at-answer_all (item ∷ items) h = (
  rw (==-refl item.correlation_id) refl,
  answers_behind item.correlation_id (ItemAnswer.item_decided (decide item.key)) (answer_all items)
      items h.0 (result_at-answer_all items h.1),
)

pub sample_server-IsFaithful : IsFaithful sample_server decide
sample_server-IsFaithful = record {
  checks = λ key. refl;
  batches = λ items short distinct.
      (answer_all items, refl, length-answer_all items, result_at-answer_all items distinct);
}

abbrev ann_owner : Grant
ann_owner = record {
  subject = ann_subject;
  object = network_object;
  relation = relation_owner;
  is_structural = false;
}

abbrev bob_viewer : Grant
bob_viewer = record {
  subject = bob_subject;
  object = network_object;
  relation = record { value = characters "viewer" };
  is_structural = false;
}

already_prefixed : object_from_id type_stack (characters "stack:abc") ≡ err AuthError.invalid_input
unfolding object_from_id new_identifier safe_tuple_token contains_any
already_prefixed = refl

wildcard_subject : subject_from_oidc_sub (characters "*") ≡ err AuthError.invalid_input
unfolding subject_from_oidc_sub new_identifier safe_tuple_token contains_any
wildcard_subject = refl

parent_not_granted : grant_relation (characters "parent") ≡ err AuthError.invalid_input
unfolding grant_relation new_relation grantable safe_tuple_token contains_any same_chars
parent_not_granted = refl

listed : list_grants 3 sample_server network_object ≡ some (ok (ann_owner ∷ bob_viewer ∷ []))
unfolding list_grants read_pages read_page next_page add_grants add_grant grant_from_tuple
    grant_of_user grant_before sort new_grant grant_valid subject_valid object_valid
    identifier_valid subject_types new_relation structural grantable subject_from_oidc_sub
    new_identifier safe_tuple_token contains_any string_of same_chars before after_prefix
listed = refl

pub ann_named : subject_from_oidc_sub ann ≡ ok ann_subject
unfolding subject_from_oidc_sub new_identifier safe_tuple_token contains_any
ann_named = refl

ann_owner_valid : grant_valid ann_owner ≡ true
unfolding grant_valid subject_valid object_valid identifier_valid subject_types grantable
    safe_tuple_token contains_any same_chars
ann_owner_valid = refl

ann_valid : identifier_valid ann_subject.identifier ≡ true
unfolding identifier_valid safe_tuple_token contains_any
ann_valid = refl

ann_rendered : new_identifier type_user ann ≡ ok ann_subject.identifier
unfolding new_identifier safe_tuple_token contains_any
ann_rendered = refl

string_of_injective_example : ann_subject.identifier ≡ ann_subject.identifier
string_of_injective_example =
    string_of_injective ann_subject.identifier ann_subject.identifier ann_valid ann_valid refl

grant_from_tuple-tuple_key_example :
    grant_from_tuple (some (tuple_key ann_owner)) network_object
    ≡ (if same_chars type_user type_user && true then ok ann_owner else err AuthError.not_a_grant)
grant_from_tuple-tuple_key_example = grant_from_tuple-tuple_key ann_owner ann_owner_valid

abbrev two_questions : List Check
two_questions =
    record { relation = relation_can_view; object = network_object }
    ∷ record { relation = relation_can_operate; object = network_object }
    ∷ []

can_all-can_example :
    can_all sample_server ann two_questions ≡ each (can sample_server ann) two_questions
can_all-can_example = can_all-can sample_server decide sample_server-IsFaithful ann two_questions

tokens_below :
    (token : ℕ) (page : Page)
    → sample_server.read (string_of network_object.identifier) token ≡ some page
    → page.continuation_token < 2
tokens_below zero page e = ground arith
tokens_below (suc zero) page e = ground arith
tokens_below (suc (suc token)) page e = cc

list_grants_total_example :
    (r : Checked (List Grant)) × (list_grants 3 sample_server network_object ≡ some r)
list_grants_total_example = list_grants_total sample_server network_object 2 tokens_below

list_grants-answers_example :
    (tuples : List (Option TupleKey)) × ReadFrom sample_server network_object 0 tuples
    × (count (λ g. true) (ann_owner ∷ bob_viewer ∷ [])
        ≡ count (stored_grant (λ g. true) network_object) tuples)
    × All (λ g. (grant_valid g ≡ true) × (g.object ≡ network_object)) (ann_owner ∷ bob_viewer ∷ [])
    × InOrder grant_before (ann_owner ∷ bob_viewer ∷ [])
list_grants-answers_example =
    list_grants-answers (λ g. true) 3 sample_server network_object (ann_owner ∷ bob_viewer ∷ [])
      listed
