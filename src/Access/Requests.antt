-- ===== src/Access/Requests.antt =====
-- The preconditions of internal/app/authorization.go, and its questions on one object.
use tflive.Common.{Bool, not, Option, none, some}
use tflive.Common.Results.{Result, ok, err, ◌>>=◌, ◌>>◌, guard}
use tflive.Common.Chars.{Chars}
use tflive.Authorization.Vocabulary.{
  AuthError, Checked, Object, is_empty, object_from_id, type_stack, platform,
}
use tflive.Authorization.Relations.{Relation}
use tflive.Authorization.Server.{Server}
use tflive.Authorization.Checks.{can}

pub data AccessError : Type 0 where
  unauthenticated not_configured forbidden not_found : AccessError
  page_too_long not_advanced not_ordered invalid_candidate wrong_length : AccessError
  authorization_failed : AuthError → AccessError

abbrev pub Answer {ℓ} : Type ℓ → Type ℓ
Answer A = Result AccessError A

-- A request: the subject of its principal, if it has one, and the authorizer, if it is configured.
pub record Caller : Type 0 where
  pub principal : Option Chars
  pub authorizer : Option Server

-- A failure of the authorization passes on.
abbrev pub asked {ℓ} : {A : Type ℓ} → Checked A → Answer A
asked (err failure) = err (authorization_failed failure)
asked (ok value) = ok value

abbrev pub known_subject : Option Chars → Answer Chars
known_subject none = err unauthenticated
known_subject (some subject) = do guard (not (is_empty subject)) unauthenticated; ok subject

unfoldable pub require_principal : Caller → Answer Chars
require_principal caller = known_subject caller.principal

abbrev pub configured : Option Server → Answer Server
configured none = err not_configured
configured (some server) = ok server

-- Authentication comes before configuration.
unfoldable pub require_principal_and_authorizer : Caller → Answer (Chars × Server)
require_principal_and_authorizer caller = do
  subject ← require_principal caller
  server ← configured caller.authorizer
  ok (subject, server)

unfoldable pub check_platform : Caller → Relation → Answer Bool
check_platform caller relation = do
  (subject, server) ← require_principal_and_authorizer caller
  asked (can server subject (record { relation = relation; object = platform }))

unfoldable pub authorize_platform : Caller → Relation → Answer (Unit {0})
authorize_platform caller relation = do
  allowed ← check_platform caller relation
  guard allowed forbidden

-- A stack identifier that no object can have is refused like a stack that the caller may not touch.
abbrev pub object_or_denied : AccessError → Checked Object → Answer Object
object_or_denied denied (err AuthError.invalid_input) = err denied
object_or_denied denied (err failure) = err (authorization_failed failure)
object_or_denied denied (ok object) = ok object

unfoldable pub authorize_stack : Caller → Chars → Relation → AccessError → Answer (Unit {0})
authorize_stack caller stack_id relation denied = do
  (subject, server) ← require_principal_and_authorizer caller
  object ← object_or_denied denied (object_from_id type_stack stack_id)
  allowed ← asked (can server subject (record { relation = relation; object = object }))
  guard allowed denied
