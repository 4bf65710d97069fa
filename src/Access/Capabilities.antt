-- ===== src/Access/Capabilities.antt =====
-- The capabilities of internal/app/authorization.go: the questions that are asked together and the
-- decoding of their answers by position.
use tflive.Common.{
  ℕ, suc, ◌*◌, ◌==◌, Bool, true, false, List, [], ◌∷◌, ◌++◌, map, length, take, drop,
}
use tflive.Common.Results.{ok, err, ◌>>=◌, ◌>>◌, guard}
use tflive.Common.Chars.{Chars}
use tflive.Authorization.Vocabulary.{Object, object_from_id, type_stack, platform}
use tflive.Authorization.Relations.{
  Relation, relation_can_view, relation_can_operate, relation_can_approve,
  relation_can_manage_access, relation_can_administer, relation_can_create_stack,
  relation_can_publish_template,
}
use tflive.Authorization.Checks.{Check, can_all}
use tflive.Access.Requests.{
  Answer, Caller, asked, require_principal_and_authorizer, check_platform, wrong_length,
}

pub record PlatformCapabilities : Type 0 where
  pub is_platform_admin : Bool
  pub can_create_stack : Bool
  pub can_publish_template : Bool

abbrev pub platform_capability_relations : List Relation
platform_capability_relations =
    relation_can_administer ∷ relation_can_create_stack ∷ relation_can_publish_template ∷ []

pub record StackCapabilities : Type 0 where
  pub can_view : Bool
  pub can_operate : Bool
  pub can_approve : Bool
  pub can_manage_access : Bool

abbrev pub stack_capability_relations : List Relation
stack_capability_relations =
    relation_can_view ∷ relation_can_operate ∷ relation_can_approve ∷ relation_can_manage_access
    ∷ []

-- An index out of range is a panic of the code; the callers rule it out by the length.
unfoldable pub platform_capabilities_from : List Bool → Answer PlatformCapabilities
platform_capabilities_from (a ∷ b ∷ c ∷ results) =
    ok (record { is_platform_admin = a; can_create_stack = b; can_publish_template = c })
platform_capabilities_from results = err wrong_length

unfoldable pub stack_capabilities_from : List Bool → Answer StackCapabilities
stack_capabilities_from (a ∷ b ∷ c ∷ d ∷ results) =
    ok (record { can_view = a; can_operate = b; can_approve = c; can_manage_access = d })
stack_capabilities_from results = err wrong_length

abbrev pub checks_on : Object → List Relation → List Check
checks_on object relations = map (λ r. record { relation = r; object = object }) relations

unfoldable pub batch_check_object : Caller → Object → List Relation → Answer (List Bool)
batch_check_object caller object relations = do
  (subject, server) ← require_principal_and_authorizer caller
  results ← asked (can_all server subject (checks_on object relations))
  guard (length results == length (checks_on object relations)) wrong_length
  ok results

unfoldable pub resolve_platform_capabilities : Caller → Answer PlatformCapabilities
resolve_platform_capabilities caller = do
  results ← batch_check_object caller platform platform_capability_relations
  platform_capabilities_from results

unfoldable pub resolve_stack_capabilities : Caller → Chars → Answer StackCapabilities
resolve_stack_capabilities caller stack_id = do
  require_principal_and_authorizer caller >>= (λ known. ok tt)
  object ← asked (object_from_id type_stack stack_id)
  results ← batch_check_object caller object stack_capability_relations
  stack_capabilities_from results

unfoldable pub stacks_checks : List Chars → Answer (List Check)
stacks_checks [] = ok []
stacks_checks (stack_id ∷ stacks) = do
  object ← asked (object_from_id type_stack stack_id)
  checks ← stacks_checks stacks
  ok (checks_on object stack_capability_relations ++ checks)

-- The run of four results of each stack, found by its index.
unfoldable pub decode_stacks :
    List Bool → ℕ → List Chars → Answer (List (Chars × StackCapabilities))
decode_stacks results index [] = ok []
decode_stacks results index (stack_id ∷ stacks) = do
  capabilities ← stack_capabilities_from (take 4 (drop (index * 4) results))
  rest ← decode_stacks results (suc index) stacks
  ok ((stack_id, capabilities) ∷ rest)

abbrev pub all_capabilities : StackCapabilities
all_capabilities = record {
  can_view = true;
  can_operate = true;
  can_approve = true;
  can_manage_access = true;
}

-- The map from stacks to capabilities, as a list in the order of the stacks.
abbrev pub resolve_for : Caller → List Chars → Bool → Answer (List (Chars × StackCapabilities))
resolve_for caller stacks true = ok (map (λ stack_id. (stack_id, all_capabilities)) stacks)
resolve_for caller stacks false = do
  (subject, server) ← require_principal_and_authorizer caller
  checks ← stacks_checks stacks
  results ← asked (can_all server subject checks)
  guard (length results == length checks) wrong_length
  decode_stacks results 0 stacks

unfoldable pub resolve_stacks_capabilities :
    Caller → List Chars → Answer (List (Chars × StackCapabilities))
resolve_stacks_capabilities caller [] = ok []
resolve_stacks_capabilities caller (stack_id ∷ stacks) = do
  require_principal_and_authorizer caller >>= (λ known. ok tt)
  administrator ← check_platform caller relation_can_administer
  resolve_for caller (stack_id ∷ stacks) administrator
