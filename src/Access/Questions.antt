-- ===== src/Access/Questions.antt =====
-- The questions of internal/app/authorization.go on one object: proofs.
use tflive.Common.{◌≡◌, refl, Bool, true, false, [], ◌∷◌, some, arith}
use tflive.Common.Results.{ok, err, guard, >>=-eq-ok}
use tflive.Common.Chars.{Chars, contains_any}
use tflive.Authorization.Vocabulary.{
  AuthError, Checked, Subject, Object, safe_tuple_token, subject_from_oidc_sub, object_from_id,
  object_valid, identifier_valid, new_identifier, type_stack, platform, is_empty,
}
use tflive.Authorization.Relations.{Relation, relation_valid, relation_can_administer}
use tflive.Authorization.Server.{Server, TupleKey, IsFaithful, CheckAnswer}
use tflive.Authorization.Checks.{Check, check_key, check_valid, can, decision}
use tflive.Authorization.Batches.{can-decided}
use tflive.Access.Requests.{
  AccessError, Answer, Caller, asked, object_or_denied, authorize_stack,
  require_principal_and_authorizer, require_principal, check_platform,
}

abbrev pub stack_object : Chars → Object
stack_object id = record { identifier = record { object_type = type_stack; id = id } }

type_stack_safe : safe_tuple_token type_stack ≡ true
unfolding safe_tuple_token contains_any
type_stack_safe = refl

pub object_from_id-stack :
    (id : Chars) → safe_tuple_token id ≡ true → object_from_id type_stack id ≡ ok (stack_object id)
unfolding object_from_id new_identifier
object_from_id-stack id h = rw (type_stack_safe, h) refl

pub object_valid-stack :
    (id : Chars) → safe_tuple_token id ≡ true → object_valid (stack_object id) ≡ true
unfolding object_valid identifier_valid
object_valid-stack id h = rw (type_stack_safe, h) refl

abbrev pub administer_check : Check
administer_check = record { relation = relation_can_administer; object = platform }

administer_check_valid : check_valid administer_check ≡ true
unfolding relation_valid object_valid identifier_valid safe_tuple_token contains_any
administer_check_valid = refl

-- A caller with a subject that has an identifier, and a configured authorizer.
abbrev pub signed_in : Chars → Server → Caller
signed_in sub server = record { principal = some sub; authorizer = some server }

named_not_empty :
    (sub : Chars) {subject : Subject}
    → subject_from_oidc_sub sub ≡ ok subject
    → is_empty sub ≡ false
unfolding subject_from_oidc_sub new_identifier safe_tuple_token contains_any
named_not_empty [] e = cc
named_not_empty (c ∷ cs) e = refl

pub signed_in_lem :
    (sub : Chars) (server : Server) {subject : Subject}
    → subject_from_oidc_sub sub ≡ ok subject
    → require_principal_and_authorizer (signed_in sub server) ≡ ok (sub, server)
unfolding require_principal_and_authorizer require_principal
signed_in_lem sub server named = rw (named_not_empty sub named) refl

pub check_platform-decided :
    (server : Server) (decide : TupleKey → Bool)
    → IsFaithful server decide
    → (sub : Chars) (subject : Subject) → subject_from_oidc_sub sub ≡ ok subject
    → check_platform (signed_in sub server) relation_can_administer
      ≡ ok (decide (check_key subject administer_check))
unfolding check_platform
check_platform-decided server decide faithful sub subject named =
    rw (signed_in_lem sub server named) (
      rw
        (can-decided server decide faithful sub subject administer_check named
          administer_check_valid)
        refl)

object_or_denied-eq-ok :
    (denied : AccessError) (r : Checked Object) {object : Object}
    → object_or_denied denied r ≡ ok object
    → r ≡ ok object
object_or_denied-eq-ok denied (ok object) e = ground arith
object_or_denied-eq-ok denied (err AuthError.invalid_input) e = cc
object_or_denied-eq-ok denied (err failure) e = cc

asked-eq-ok : {A : Type 0} (r : Checked A) {v : A} → asked r ≡ ok v → r ≡ ok v
asked-eq-ok (err failure) e = cc
asked-eq-ok (ok v) e = ground arith

decision-eq-true :
    (answer : CheckAnswer) → decision answer ≡ ok true → answer ≡ CheckAnswer.decided true
decision-eq-true CheckAnswer.check_failed e = cc
decision-eq-true CheckAnswer.check_silent e = cc
decision-eq-true (CheckAnswer.decided allowed) e = ground arith

guarded :
    {r : Answer Bool} (allowed : Bool) (denied : AccessError)
    → r ≡ ok allowed
    → guard allowed denied ≡ ok tt
    → r ≡ ok true
guarded true denied e h = e
guarded false denied e h = cc

can-eq-true :
    (server : Server) (sub : Chars) (check : Check)
    → can server sub check ≡ ok true
    → (subject : Subject) × (subject_from_oidc_sub sub ≡ ok subject)
      × (server.check (check_key subject check) ≡ CheckAnswer.decided true)
unfolding can
can-eq-true server sub check e =
    let (subject, named, e1) = >>=-eq-ok (subject_from_oidc_sub sub) _ e in
    let (done, valid, e2) = >>=-eq-ok (guard (check_valid check) AuthError.invalid_input) _ e1 in
    (subject, named, decision-eq-true (server.check (check_key subject check)) e2)

-- authorizeStack lets a request through only if it has a principal with a subject, the authorizer is
-- configured, both identifiers fit for a tuple, and the server itself decided that the subject has the
-- relation to that stack. No failure, missing response or refusal lets it through.
pub authorize_stack-decided :
    (caller : Caller) (stack_id : Chars) (relation : Relation) (denied : AccessError)
    → authorize_stack caller stack_id relation denied ≡ ok tt
    → (sub : Chars) × (server : Server) × (subject : Subject) × (object : Object)
      × (require_principal_and_authorizer caller ≡ ok (sub, server))
      × (subject_from_oidc_sub sub ≡ ok subject)
      × (object_from_id type_stack stack_id ≡ ok object)
      × (server.check (check_key subject (record { relation = relation; object = object }))
          ≡ CheckAnswer.decided true)
unfolding authorize_stack
authorize_stack-decided caller stack_id relation denied e =
    let ((sub, server), known, e1) = >>=-eq-ok (require_principal_and_authorizer caller) _ e in
    let (object, named, e2) =
      >>=-eq-ok (object_or_denied denied (object_from_id type_stack stack_id)) _ e1 in
    let check : Check = record { relation = relation; object = object } in
    let (allowed, answered, e3) = >>=-eq-ok (asked (can server sub check)) _ e2 in
    let yes_allowed : asked (can server sub check) ≡ ok true = guarded allowed denied answered e3 in
    let (subject, identified, decided) =
      can-eq-true server sub check (asked-eq-ok (can server sub check) yes_allowed) in
    (
      sub,
      server,
      subject,
      object,
      known,
      identified,
      object_or_denied-eq-ok denied (object_from_id type_stack stack_id) named,
      decided,
    )
