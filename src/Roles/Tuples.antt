-- ===== src/Roles/Tuples.antt =====
-- What the writes of the role commands do to the number of stored grants of a kind.
use tflive.Common.{
  ◌+◌, ◌≤◌, ◌≡◌, refl, ap, ◌∙◌, subst, Bool, true, false, List, [], ◌∷◌, some, arith, bit, count,
  map, All, if◌then◌else◌,
}
use tflive.Common.Results.{ok, err, or_fail-eq-ok, >>=-eq-ok}
use tflive.Common.Chars.{same_chars}
use tflive.Authorization.Vocabulary.{AuthError, Checked, Subject, Object, type_user}
use tflive.Authorization.Relations.{Relation, Grant, grant_valid, new_grant}
use tflive.Authorization.Server.{TupleKey}
use tflive.Authorization.Grants.{tuple_key, write_keys, delete_keys, valid_grants, grant_from_tuple}
use tflive.Authorization.Rendering.{grant_from_tuple-tuple_key}
use tflive.Authorization.Listing.{grant_passes, stored_grant}
use tflive.Roles.Commands.{
  authorized, TupleServer, KeepsTuples, revoke_grants, revoke_any, grant_missing, write_failed,
}

abbrev pub stored : (Grant → Bool) → Object → TupleKey → Bool
stored test object key = stored_grant test object (some key)

abbrev pub Listed : Object → Grant → Type 0
Listed object g = (grant_valid g ≡ true) × (g.object ≡ object)

grant_passes_le :
    (test : Grant → Bool) (g : Grant) (b : Bool)
    → bit (grant_passes test (if b then ok g else err AuthError.not_a_grant)) ≤ bit (test g)
grant_passes_le test g true = omega arith
grant_passes_le test g false = omega arith

-- The tuple of a listed grant counts at most as the grant does.
stored_le :
    (test : Grant → Bool) (object : Object) (g : Grant)
    → Listed object g
    → bit (stored test object (tuple_key g)) ≤ bit (test g)
stored_le test object g (valid, on_object) =
    subst
      (λ (o : Object).
        bit (grant_passes test (grant_from_tuple (some (tuple_key g)) o)) ≤ bit (test g))
      on_object (rw (grant_from_tuple-tuple_key g valid) (grant_passes_le test g _))

count-stored_le :
    (test : Grant → Bool) (object : Object) (gs : List Grant)
    → All (Listed object) gs
    → count (stored test object) (map tuple_key gs) ≤ count test gs
count-stored_le test object [] h = omega arith
count-stored_le test object (g ∷ gs) h =
    omega (arith, stored_le test object g h.0, count-stored_le test object gs h.1)

pub authorized-eq-ok : {A : Type 0} (r : Checked A) {v : A} → authorized r ≡ ok v → r ≡ ok v
authorized-eq-ok (err failure) e = cc
authorized-eq-ok (ok v) e = ground arith

delete_keys-eq-ok :
    (gs : List Grant) {keys : List TupleKey} → delete_keys gs ≡ ok keys → keys ≡ map tuple_key gs
unfolding delete_keys
delete_keys-eq-ok gs e = let (done, valid, made) = >>=-eq-ok (valid_grants gs) _ e in ground arith

write_keys-eq-ok :
    (gs : List Grant) {keys : List TupleKey} → write_keys gs ≡ ok keys → keys ≡ map tuple_key gs
unfolding write_keys
write_keys-eq-ok gs e = let (done, valid, made) = >>=-eq-ok (valid_grants gs) _ e in ground arith

new_grant-fields :
    (subject : Subject) (object : Object) (relation : Relation) {g : Grant}
    → new_grant subject object relation ≡ ok g
    → (grant_valid g ≡ true)
      × (g.subject ≡ subject)
      × (g.object ≡ object)
      × (g.relation ≡ relation)
      × (g.is_structural ≡ false)
unfolding new_grant
new_grant-fields subject object relation e = ground arith

-- The tuple of a grant of a user counts exactly as the grant does.
stored_new :
    (test : Grant → Bool) (object : Object) (g : Grant)
    → grant_valid g ≡ true
    → g.object ≡ object
    → same_chars g.subject.identifier.object_type type_user ≡ true
    → g.is_structural ≡ false
    → stored test object (tuple_key g) ≡ test g
stored_new test object g valid on_object user plain =
    subst (λ (o : Object). grant_passes test (grant_from_tuple (some (tuple_key g)) o) ≡ test g)
      on_object (rw (grant_from_tuple-tuple_key g valid, user, plain) refl)

module _ (server : TupleServer) (keeps : KeepsTuples server) (test : Grant → Bool)
    (object : Object) where
  -- A revocation takes no more grants of a kind than it is given.
  pub count-revoke_any :
      (gs : List Grant) (tuples after : List TupleKey)
      → All (Listed object) gs
      → revoke_any server gs tuples ≡ ok after
      → count (stored test object) tuples ≤ count (stored test object) after + count test gs
  unfolding revoke_any revoke_grants
  count-revoke_any [] tuples after h e = ground arith
  count-revoke_any (g ∷ gs) tuples after h e =
      let (keys, made, deleted) = >>=-eq-ok (authorized (delete_keys (g ∷ gs))) _ e in
      let keys_are = delete_keys-eq-ok (g ∷ gs) (authorized-eq-ok (delete_keys (g ∷ gs)) made) in
      let removed =
        keeps.deletes (stored test object) tuples keys after
          (or_fail-eq-ok (server.delete tuples keys) write_failed deleted) in
      omega (
        arith,
        removed,
        ap (count (stored test object)) keys_are,
        count-stored_le test object (g ∷ gs) h,
      )

  -- A grant that is missing is added.
  pub count-grant_missing :
      (subject : Subject) (desired : Relation) (already : Bool) (tuples after : List TupleKey)
      → grant_missing server already subject object desired tuples ≡ ok after
      → count (stored test object) tuples ≤ count (stored test object) after
  unfolding grant_missing
  count-grant_missing subject desired true tuples after e = ground arith
  count-grant_missing subject desired false tuples after e =
      let (grant, made, e1) = >>=-eq-ok (authorized (new_grant subject object desired)) _ e in
      let (keys, rendered, e2) = >>=-eq-ok (authorized (write_keys (grant ∷ []))) _ e1 in
      omega (
        arith,
        keeps.writes (stored test object) tuples keys after
            (or_fail-eq-ok (server.write tuples keys) write_failed e2),
      )

  -- The grant that is added reads back as a grant of the desired relation.
  pub count-grant_missing_new :
      (subject : Subject) (desired : Relation) (tuples after : List TupleKey)
      → same_chars subject.identifier.object_type type_user ≡ true
      → ((g : Grant) → g.relation ≡ desired → test g ≡ true)
      → grant_missing server false subject object desired tuples ≡ ok after
      → 1 ≤ count (stored test object) after
  unfolding grant_missing
  count-grant_missing_new subject desired tuples after user passes e =
      let (grant, made, e1) = >>=-eq-ok (authorized (new_grant subject object desired)) _ e in
      let (keys, rendered, e2) = >>=-eq-ok (authorized (write_keys (grant ∷ []))) _ e1 in
      let (valid, of_subject, on_object, of_desired, plain) =
        new_grant-fields subject object desired
          (authorized-eq-ok (new_grant subject object desired) made) in
      let added =
        keeps.writes (stored test object) tuples keys after
          (or_fail-eq-ok (server.write tuples keys) write_failed e2) in
      let keys_are =
        write_keys-eq-ok (grant ∷ []) (authorized-eq-ok (write_keys (grant ∷ [])) rendered) in
      let reads_back : stored test object (tuple_key grant) ≡ test grant =
        stored_new test object grant valid on_object (rw of_subject user) plain in
      omega (
        arith,
        added,
        ap (count (stored test object)) keys_are,
        ap bit (reads_back ∙ passes grant of_desired),
      )
