-- ===== src/Authorization/Relations.antt =====
-- internal/authorization/relations.go, and the grants of vocabulary.go: which relations exist,
-- which may be granted, and which are stored edges that are not access.
use tflive.Common.{List, [], ◌∷◌, any, Bool, true, false, ◌||◌, not, if◌then◌else◌}
use tflive.Common.Results.{ok, ◌>>=◌, ◌>>◌, guard}
use tflive.Common.Chars.{Chars, characters, same_chars}
use tflive.Authorization.Vocabulary.{
  AuthError, Checked, Subject, Object, subject_valid, object_valid, safe_tuple_token,
}

pub record Relation : Type 0 where
  pub value : Chars

abbrev pub grantable_relations : List Chars
grantable_relations =
    characters "owner"
    ∷ characters "operator"
    ∷ characters "approver"
    ∷ characters "viewer"
    ∷ characters "admin"
    ∷ characters "editor"
    ∷ []

abbrev pub structural_relations : List Chars
structural_relations = characters "parent" ∷ characters "root" ∷ []

unfoldable pub relation_valid : Relation → Bool
relation_valid relation = safe_tuple_token relation.value

unfoldable pub grantable : Relation → Bool
grantable relation = any (same_chars relation.value) grantable_relations

unfoldable pub structural : Relation → Bool
structural relation = any (same_chars relation.value) structural_relations

unfoldable pub new_relation : Chars → Checked Relation
new_relation name = do
  guard (safe_tuple_token name) AuthError.invalid_input
  ok (record { value = name })

unfoldable pub grant_relation : Chars → Checked Relation
grant_relation name = do
  relation ← new_relation name
  guard (grantable relation) AuthError.invalid_input
  ok relation

-- The named relations; the checks of mustRelation and mustGrantRelation hold of these texts.
abbrev pub relation_owner : Relation
relation_owner = record { value = characters "owner" }

abbrev pub relation_parent : Relation
relation_parent = record { value = characters "parent" }

abbrev pub relation_can_view : Relation
relation_can_view = record { value = characters "can_view" }

abbrev pub relation_can_operate : Relation
relation_can_operate = record { value = characters "can_operate" }

abbrev pub relation_can_approve : Relation
relation_can_approve = record { value = characters "can_approve" }

abbrev pub relation_can_manage_access : Relation
relation_can_manage_access = record { value = characters "can_manage_access" }

abbrev pub relation_can_administer : Relation
relation_can_administer = record { value = characters "can_administer" }

abbrev pub relation_can_create_stack : Relation
relation_can_create_stack = record { value = characters "can_create_stack" }

abbrev pub relation_can_publish_template : Relation
relation_can_publish_template = record { value = characters "can_publish_template" }

pub record Grant : Type 0 where
  pub subject : Subject
  pub object : Object
  pub relation : Relation
  pub is_structural : Bool

unfoldable pub grant_valid : Grant → Bool
grant_valid grant =
    if not (subject_valid grant.subject) || not (object_valid grant.object)
    then false
    else if grant.is_structural
    then structural grant.relation
    else grantable grant.relation

unfoldable pub new_grant : Subject → Object → Relation → Checked Grant
new_grant subject object relation = do
  let grant : Grant = record {
    subject = subject;
    object = object;
    relation = relation;
    is_structural = false;
  }
  guard (grant_valid grant) AuthError.invalid_input
  ok grant

unfoldable pub new_structural_relationship : Subject → Object → Relation → Checked Grant
new_structural_relationship subject object relation = do
  guard (structural relation) AuthError.invalid_input
  let grant : Grant = record {
    subject = subject;
    object = object;
    relation = relation;
    is_structural = true;
  }
  guard (grant_valid grant) AuthError.invalid_input
  ok grant
