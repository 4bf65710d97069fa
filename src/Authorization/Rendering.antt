-- ===== src/Authorization/Rendering.antt =====
-- The texts of internal/authorization name what they render: proofs on identifiers and tuples.
use tflive.Common.{
  ◌==◌, ◌≡◌, ◌∙◌, refl, sym, Bool, true, false, ◌&&◌, not, List, [], any, All, if◌then◌else◌, ◌∷◌,
  ◌++◌, none, some, arith, Option-cases, Bool-cases, inl, inr,
}
use tflive.Common.Results.{ok, err}
use tflive.Common.Chars.{
  Chars, contains_any, same_chars, same_chars_refl, same_chars_eq, split_unique, after_prefix,
  after_prefix-append, after_prefix-eq-some,
}
use tflive.Authorization.Vocabulary.{
  AuthError, Identifier, Subject, colon, is_separator, safe_tuple_token, string_of,
  identifier_valid, subject_valid, type_user, new_identifier, subject_from_oidc_sub,
}
use tflive.Authorization.Relations.{
  Relation, Grant, grant_valid, structural, grantable, new_grant, new_relation, grantable_relations,
  structural_relations,
}
use tflive.Authorization.Grants.{tuple_key, grant_from_tuple, grant_of_user, user_prefix}

no_colon :
    (token : Chars)
    → contains_any is_separator token ≡ false
    → contains_any (λ c. c == colon) token ≡ false
unfolding contains_any
no_colon [] h = refl
no_colon (c ∷ cs) h = ground (arith, no_colon cs)

safe_tuple_token-no_colon :
    (token : Chars) → safe_tuple_token token ≡ true → contains_any (λ c. c == colon) token ≡ false
unfolding safe_tuple_token
safe_tuple_token-no_colon token h = ground (arith, no_colon token)

-- Two valid identifiers with the same text are the same identifier.
pub string_of_injective :
    (a b : Identifier)
    → identifier_valid a ≡ true
    → identifier_valid b ≡ true
    → string_of a ≡ string_of b
    → a ≡ b
unfolding identifier_valid string_of
string_of_injective a b h k e =
    let parts : (a.object_type ≡ b.object_type) × (a.id ≡ b.id) =
      split_unique colon a.object_type a.id b.object_type b.id
        (safe_tuple_token-no_colon a.object_type (ground arith))
        (safe_tuple_token-no_colon b.object_type (ground arith)) (ground arith) in
    ground arith

string_of_valid :
    (a : Identifier) → identifier_valid a ≡ true → string_of a ≡ a.object_type ++ colon ∷ a.id
unfolding identifier_valid string_of
string_of_valid a h = ground arith

identifier_valid-type :
    (a : Identifier) → identifier_valid a ≡ true → safe_tuple_token a.object_type ≡ true
unfolding identifier_valid
identifier_valid-type a h = ground arith

-- The text of an identifier starts with the user prefix only if its type is the user type.
after_prefix-string_of_other :
    (a : Identifier)
    → identifier_valid a ≡ true
    → same_chars a.object_type type_user ≡ false
    → after_prefix user_prefix (string_of a) ≡ none
unfolding contains_any
after_prefix-string_of_other a h other =
    elim (Option-cases (after_prefix user_prefix (string_of a))) [
      | inl e ↦ e
      | inr (rest, e) ↦
          let parts : (a.object_type ≡ type_user) × (a.id ≡ rest) =
            split_unique colon a.object_type a.id type_user rest
              (safe_tuple_token-no_colon a.object_type (identifier_valid-type a h)) refl
              (sym (string_of_valid a h) ∙ after_prefix-eq-some user_prefix (string_of a) e) in
          cc (parts.0, same_chars_refl type_user)
    ]

after_prefix-string_of_user :
    (a : Identifier)
    → identifier_valid a ≡ true
    → same_chars a.object_type type_user ≡ true
    → after_prefix user_prefix (string_of a) ≡ some a.id
after_prefix-string_of_user a h user =
    rw (string_of_valid a h, same_chars_eq a.object_type type_user user)
      (after_prefix-append user_prefix a.id)

-- A test that holds of the listed texts holds of a text that is one of them.
listed :
    (test : Chars → Bool) (text : Chars) (texts : List Chars)
    → All (λ c. test c ≡ true) texts
    → any (same_chars text) texts ≡ true
    → test text ≡ true
listed test text [] holds h = cc
listed test text (c ∷ texts) holds h = elim (Bool-cases (same_chars text c)) [
  | inl same ↦ rw (same_chars_eq text c same) holds.0
  | inr other ↦ listed test text texts holds.1 (ground arith)
]

safe_tuple_token-structural : (r : Relation) → structural r ≡ true → safe_tuple_token r.value ≡ true
unfolding structural safe_tuple_token contains_any
safe_tuple_token-structural r h =
    listed safe_tuple_token r.value structural_relations (refl, (refl, tt)) h

safe_tuple_token-grantable : (r : Relation) → grantable r ≡ true → safe_tuple_token r.value ≡ true
unfolding grantable safe_tuple_token contains_any
safe_tuple_token-grantable r h =
    listed safe_tuple_token r.value grantable_relations
      (refl, (refl, (refl, (refl, (refl, (refl, tt)))))) h

grantable-structural : (r : Relation) → grantable r ≡ true → not (structural r) ≡ true
unfolding grantable structural same_chars
grantable-structural r h =
    listed (λ text. not (any (same_chars text) structural_relations)) r.value grantable_relations
      (refl, (refl, (refl, (refl, (refl, (refl, tt)))))) h

subject_from_oidc_sub_lem :
    (a : Subject)
    → identifier_valid a.identifier ≡ true
    → same_chars a.identifier.object_type type_user ≡ true
    → subject_from_oidc_sub a.identifier.id ≡ ok a
unfolding subject_from_oidc_sub new_identifier identifier_valid safe_tuple_token contains_any
subject_from_oidc_sub_lem a h user =
    ground (arith, same_chars_eq a.identifier.object_type type_user)

-- What the reading of a stored tuple makes of every grant that may be written: the grant itself if it
-- is access of a user, and no grant if it is a structural edge or its subject is not a user.
pub grant_from_tuple-tuple_key :
    (g : Grant)
    → grant_valid g ≡ true
    → grant_from_tuple (some (tuple_key g)) g.object ≡ (
        if same_chars g.subject.identifier.object_type type_user && not g.is_structural
        then ok g
        else err AuthError.not_a_grant)
unfolding grant_from_tuple grant_of_user grant_valid subject_valid new_relation new_grant
grant_from_tuple-tuple_key g h =
    elim (Bool-cases (same_chars g.subject.identifier.object_type type_user)) [
      | inl user ↦ ground (
        arith,
        user,
        same_chars_refl (string_of g.object.identifier),
        same_chars_refl (string_of g.subject.identifier),
        after_prefix-string_of_user g.subject.identifier,
        subject_from_oidc_sub_lem g.subject,
        safe_tuple_token-structural g.relation,
        safe_tuple_token-grantable g.relation,
        grantable-structural g.relation,
      )
      | inr other ↦ ground (
        arith,
        other,
        same_chars_refl (string_of g.object.identifier),
        after_prefix-string_of_other g.subject.identifier,
      )
    ]
