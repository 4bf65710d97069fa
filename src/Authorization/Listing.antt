-- ===== src/Authorization/Listing.antt =====
-- What ListGrants of internal/authorization/authorization.go returns: the grants among the stored
-- tuples of all pages, each once, in order.
use tflive.Common.{
  ◌+◌, ◌≡◌, refl, subst, Bool, true, false, not, List, [], ◌∷◌, ◌++◌, Option, none, some, arith,
  any, bit, count, count-append, All, All-append,
}
use tflive.Common.Results.{ok, err, guard, >>=-eq-ok}
use tflive.Common.Chars.{Chars, same_chars, after_prefix}
use tflive.Authorization.Vocabulary.{AuthError, Checked, Object, string_of, subject_from_oidc_sub}
use tflive.Authorization.Relations.{
  Grant, grant_valid, new_grant, new_relation, structural, grantable,
}
use tflive.Authorization.Sorting.{same_key}
use tflive.Common.Sorting.{Unlike}
use tflive.Authorization.Server.{TupleKey}
use tflive.Authorization.Grants.{
  add_grant, add_grants, grant_key, grant_from_tuple, grant_of_user, as_malformed, user_prefix,
}

-- Whether the tuple is a grant that passes the test.
abbrev pub grant_passes : (Grant → Bool) → Checked Grant → Bool
grant_passes test (err failure) = false
grant_passes test (ok grant) = test grant

abbrev pub stored_grant : (Grant → Bool) → Object → Option TupleKey → Bool
stored_grant test object stored = grant_passes test (grant_from_tuple stored object)

Unlike-append :
    (gs : List Grant) (g : Grant)
    → Unlike same_key gs
    → any (λ other. same_chars (grant_key other) (grant_key g)) gs ≡ false
    → Unlike same_key (gs ++ g ∷ [])
Unlike-append [] g h fresh = (tt, tt)
Unlike-append (x ∷ gs) g h fresh =
    (All-append _ gs (g ∷ []) h.0 (ground arith, tt), Unlike-append gs g h.1 (ground arith))

-- What the loop keeps of the grants that it has collected.
pub record IsListing (object : Object) (gs : List Grant) : Type 0 where
  pub one_per_key : Unlike same_key gs
  pub of_object : All (λ g. (grant_valid g ≡ true) × (g.object ≡ object)) gs

new_grant-eq-ok :
    (s : _) (object : Object) (r : _) {g : Grant}
    → new_grant s object r ≡ ok g
    → (grant_valid g ≡ true) × (g.object ≡ object)
unfolding new_grant
new_grant-eq-ok s object r e = ground arith

as_malformed-eq-ok : {A : Type 0} (r : Checked A) {v : A} → as_malformed r ≡ ok v → r ≡ ok v
as_malformed-eq-ok (err failure) e = cc
as_malformed-eq-ok (ok value) e = e

grant_of_user-eq-ok :
    (key : TupleKey) (object : Object) (sub : Option Chars) {g : Grant}
    → grant_of_user key object sub ≡ ok g
    → (grant_valid g ≡ true) × (g.object ≡ object)
unfolding grant_of_user
grant_of_user-eq-ok key object none e = cc
grant_of_user-eq-ok key object (some sub) e =
    let (subject, e0, e1) = >>=-eq-ok (as_malformed (subject_from_oidc_sub sub)) _ e in
    let (canonical, e2, e3) =
      >>=-eq-ok
        (guard (same_chars (string_of subject.identifier) key.user) AuthError.malformed_tuple) _
        e1 in
    let (relation, e4, e5) = >>=-eq-ok (as_malformed (new_relation key.relation)) _ e3 in
    let (access, e6, e7) =
      >>=-eq-ok (guard (not (structural relation)) AuthError.not_a_grant) _ e5 in
    let (storable, e8, e9) =
      >>=-eq-ok (guard (grantable relation) AuthError.malformed_tuple) _ e7 in
    new_grant-eq-ok subject object relation
      (as_malformed-eq-ok (new_grant subject object relation) e9)

grant_from_tuple-eq-ok :
    (stored : Option TupleKey) (object : Object) {g : Grant}
    → grant_from_tuple stored object ≡ ok g
    → (grant_valid g ≡ true) × (g.object ≡ object)
unfolding grant_from_tuple
grant_from_tuple-eq-ok none object e = cc
grant_from_tuple-eq-ok (some key) object e =
    let (done, e0, e1) =
      >>=-eq-ok
        (guard (same_chars key.object (string_of object.identifier)) AuthError.malformed_tuple) _
        e in
    grant_of_user-eq-ok key object (after_prefix user_prefix key.user) e1

-- The step of the loop over the tuples of a page, for a grant and for a tuple that is none.
add_grant-IsListing :
    (object : Object) (stored : Option TupleKey) (new : Checked Grant) (grants : List Grant)
    {found : List Grant}
    → grant_from_tuple stored object ≡ new
    → IsListing object grants
    → add_grant new grants ≡ ok found
    → IsListing object found
unfolding add_grant
add_grant-IsListing object stored (ok g) grants {found} made h e =
    let (done, fresh, e1) =
      >>=-eq-ok
        (guard (not (any (λ other. same_chars (grant_key other) (grant_key g)) grants))
          AuthError.duplicate_grant)
        _ e in
    let same : found ≡ grants ++ g ∷ [] = ground arith in
    rw same (record {
      one_per_key = Unlike-append grants g h.one_per_key (ground arith);
      of_object =
          All-append _ grants (g ∷ []) h.of_object (grant_from_tuple-eq-ok stored object made, tt);
    })
add_grant-IsListing object stored (err AuthError.not_a_grant) grants {found} made h e =
    let same : grants ≡ found = ground arith in subst (IsListing object) same h
add_grant-IsListing object stored (err failure) grants made h e = cc

pub add_grants-IsListing :
    (object : Object) (tuples : List (Option TupleKey)) (grants : List Grant) {found : List Grant}
    → IsListing object grants
    → add_grants object tuples grants ≡ ok found
    → IsListing object found
unfolding add_grants
add_grants-IsListing object [] grants {found} h e =
    let same : grants ≡ found = ground arith in subst (IsListing object) same h
add_grants-IsListing object (stored ∷ tuples) grants h e =
    let (kept, e0, e1) = >>=-eq-ok (add_grant (grant_from_tuple stored object) grants) _ e in
    add_grants-IsListing object tuples kept
      (add_grant-IsListing object stored (grant_from_tuple stored object) grants refl h e0) e1

module _ (test : Grant → Bool) where
  count-add_grant :
      (new : Checked Grant) (grants : List Grant) {found : List Grant}
      → add_grant new grants ≡ ok found
      → count test found ≡ count test grants + bit (grant_passes test new)
  unfolding add_grant
  count-add_grant (ok g) grants {found} e =
      let (done, fresh, e1) =
        >>=-eq-ok
          (guard (not (any (λ other. same_chars (grant_key other) (grant_key g)) grants))
            AuthError.duplicate_grant)
          _ e in
      let same : found ≡ grants ++ g ∷ [] = ground arith in
      rw (same, count-append test grants (g ∷ [])) (omega arith)
  count-add_grant (err AuthError.not_a_grant) grants e = ground arith
  count-add_grant (err failure) grants e = cc

  pub count-add_grants :
      (object : Object) (tuples : List (Option TupleKey)) (grants : List Grant) {found : List Grant}
      → add_grants object tuples grants ≡ ok found
      → count test found ≡ count test grants + count (stored_grant test object) tuples
  unfolding add_grants
  count-add_grants object [] grants e = ground arith
  count-add_grants object (stored ∷ tuples) grants e =
      let (kept, e0, e1) = >>=-eq-ok (add_grant (grant_from_tuple stored object) grants) _ e in
      omega (
        arith,
        count-add_grant (grant_from_tuple stored object) grants e0,
        count-add_grants object tuples kept e1,
      )
