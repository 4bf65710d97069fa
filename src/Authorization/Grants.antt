-- ===== src/Authorization/Grants.antt =====
-- The grants of internal/authorization/authorization.go: ListGrants with its paging, the reading of a
-- stored tuple, and the checks of Grant and Revoke.
use tflive.Common.{
  ℕ, zero, suc, ◌==◌, Bool, not, List, [], ◌∷◌, ◌++◌, map, Option, none, some, any, if◌then◌else◌,
}
use tflive.Common.Results.{ok, err, ◌>>=◌, ◌>>◌, guard, or_fail}
use tflive.Common.Chars.{Chars, characters, same_chars, before, after_prefix}
use tflive.Common.Sorting.{sort}
use tflive.Authorization.Vocabulary.{
  AuthError, Checked, Object, object_valid, string_of, subject_from_oidc_sub,
}
use tflive.Authorization.Relations.{
  Grant, structural, grantable, new_relation, new_grant, grant_valid,
}
use tflive.Authorization.Server.{Server, TupleKey}

-- Any failure becomes `errMalformedTuple`.
abbrev pub as_malformed {ℓ} : {A : Type ℓ} → Checked A → Checked A
as_malformed (err failure) = err AuthError.malformed_tuple
as_malformed (ok value) = ok value

abbrev pub user_prefix : Chars
user_prefix = characters "user:"

-- A tuple of a user: the text after the prefix must be canonical.
unfoldable pub grant_of_user : TupleKey → Object → Option Chars → Checked Grant
grant_of_user key object none = err AuthError.not_a_grant
grant_of_user key object (some sub) = do
  subject ← as_malformed (subject_from_oidc_sub sub)
  guard (same_chars (string_of subject.identifier) key.user) AuthError.malformed_tuple
  relation ← as_malformed (new_relation key.relation)
  guard (not (structural relation)) AuthError.not_a_grant
  guard (grantable relation) AuthError.malformed_tuple
  as_malformed (new_grant subject object relation)

unfoldable pub grant_from_tuple : Option TupleKey → Object → Checked Grant
grant_from_tuple none object = err AuthError.malformed_tuple
grant_from_tuple (some key) object = do
  guard (same_chars key.object (string_of object.identifier)) AuthError.malformed_tuple
  grant_of_user key object (after_prefix user_prefix key.user)

-- `grant.Subject().String() + "\x00" + grant.Relation().String()`.
abbrev pub grant_key : Grant → Chars
grant_key grant = string_of grant.subject.identifier ++ 0 ∷ grant.relation.value

-- A tuple that is no grant is skipped; a second grant of one key is refused.
unfoldable pub add_grant : Checked Grant → List Grant → Checked (List Grant)
add_grant (err AuthError.not_a_grant) grants = ok grants
add_grant (err failure) grants = err failure
add_grant (ok grant) grants = do
  guard (not (any (λ other. same_chars (grant_key other) (grant_key grant)) grants))
      AuthError.duplicate_grant
  ok (grants ++ grant ∷ [])

unfoldable pub add_grants : Object → List (Option TupleKey) → List Grant → Checked (List Grant)
add_grants object [] grants = ok grants
add_grants object (stored ∷ tuples) grants = do
  found ← add_grant (grant_from_tuple stored object) grants
  add_grants object tuples found

-- What the loop goes on with after a page.
pub data Progress : Type 0 where
  finished : List Grant → Progress
  more : List Grant → List ℕ → ℕ → Progress

unfoldable pub next_page : List Grant → List ℕ → ℕ → Checked Progress
next_page found seen token =
    if token == 0
    then ok (finished found)
    else if any (λ other. other == token) seen
    then err AuthError.repeated_token
    else ok (more found (token ∷ seen) token)

unfoldable pub read_page : Server → Object → List Grant → List ℕ → ℕ → Checked Progress
read_page server object grants seen token = do
  page ← or_fail (server.read (string_of object.identifier) token) AuthError.server_failed
  found ← add_grants object page.tuples grants
  next_page found seen page.continuation_token

abbrev pub go_on :
    Checked Progress
    → (List Grant → List ℕ → ℕ → Option (Checked (List Grant)))
    → Option (Checked (List Grant))
go_on (err failure) next = some (err failure)
go_on (ok (finished found)) next = some (ok found)
go_on (ok (more found seen token)) next = next found seen token

-- The loop over the pages, on fuel: none where the fuel runs out.
unfoldable pub read_pages :
    ℕ → Server → Object → List Grant → List ℕ → ℕ → Option (Checked (List Grant))
read_pages zero server object grants seen token = none
read_pages (suc fuel) server object grants seen token =
    go_on (read_page server object grants seen token)
      (λ found known next. read_pages fuel server object found known next)

unfoldable pub grant_before : Grant → Grant → Bool
grant_before g h =
    if not (same_chars (string_of g.subject.identifier) (string_of h.subject.identifier))
    then before (string_of g.subject.identifier) (string_of h.subject.identifier)
    else before g.relation.value h.relation.value

-- sort.Slice: no two grants compare equal, so the order determines the result.
abbrev pub sorted_result : Option (Checked (List Grant)) → Option (Checked (List Grant))
sorted_result none = none
sorted_result (some (err failure)) = some (err failure)
sorted_result (some (ok grants)) = some (ok (sort grant_before grants))

unfoldable pub list_grants : ℕ → Server → Object → Option (Checked (List Grant))
list_grants fuel server object =
    if not (object_valid object)
    then some (err AuthError.invalid_input)
    else sorted_result (read_pages fuel server object [] [] 0)

-- `... + "\x00" + grant.Object().String()`.
abbrev pub mutation_key : Grant → Chars
mutation_key grant = grant_key grant ++ 0 ∷ string_of grant.object.identifier

unfoldable pub valid_grants_from : List Chars → List Grant → Checked (Unit {0})
valid_grants_from seen [] = ok tt
valid_grants_from seen (grant ∷ grants) = do
  guard (grant_valid grant) AuthError.invalid_input
  guard (not (any (same_chars (mutation_key grant)) seen)) AuthError.invalid_input
  valid_grants_from (mutation_key grant ∷ seen) grants

unfoldable pub valid_grants : List Grant → Checked (Unit {0})
valid_grants [] = err AuthError.invalid_input
valid_grants (grant ∷ grants) = valid_grants_from [] (grant ∷ grants)

abbrev pub tuple_key : Grant → TupleKey
tuple_key grant = record {
  user = string_of grant.subject.identifier;
  relation = grant.relation.value;
  object = string_of grant.object.identifier;
}

-- The keys that Grant writes and that Revoke deletes.
unfoldable pub write_keys : List Grant → Checked (List TupleKey)
write_keys grants = do valid_grants grants; ok (map tuple_key grants)

unfoldable pub delete_keys : List Grant → Checked (List TupleKey)
delete_keys grants = do valid_grants grants; ok (map tuple_key grants)
