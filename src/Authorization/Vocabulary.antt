-- ===== src/Authorization/Vocabulary.antt =====
-- internal/authorization/vocabulary.go and relations.go: identifiers, subjects, objects, relations
-- and grants, with the characters that a part of a tuple may not hold.
use tflive.Common.{[], ℕ, ◌==◌, leb, Bool, true, false, ◌&&◌, ◌||◌, not, ◌++◌, ◌∷◌, if◌then◌else◌}
use tflive.Common.Results.{Result, ok, ◌>>=◌, ◌>>◌, guard}
use tflive.Common.Chars.{Chars, characters, same_chars, contains_any}

-- `ErrInvalidInput`, the two reasons why a tuple is no grant, and the failures of the server.
pub data AuthError : Type 0 where
  invalid_input not_a_grant malformed_tuple server_failed no_response : AuthError
  wrong_result_count missing_result failed_result duplicate_grant repeated_token : AuthError

abbrev pub Checked {ℓ} : Type ℓ → Type ℓ
Checked A = Result AuthError A

abbrev pub colon : ℕ
colon = b':'

-- `strings.ContainsAny(token, ":#*")`.
abbrev pub is_separator : ℕ → Bool
is_separator c = c == colon || c == b'#' || c == b'*'

-- unicode.IsSpace: the white space of Unicode.
abbrev pub is_space : ℕ → Bool
is_space c =
    (leb 9 c && leb c 13)
    || c == 32
    || c == 0x85
    || c == 0xa0
    || c == 0x1680
    || (leb 0x2000 c && leb c 0x200a)
    || c == 0x2028
    || c == 0x2029
    || c == 0x202f
    || c == 0x205f
    || c == 0x3000

-- unicode.IsControl: the two blocks of control characters.
abbrev pub is_control : ℕ → Bool
is_control c = leb c 31 || (leb 127 c && leb c 159)

abbrev pub is_empty : Chars → Bool
is_empty [] = true
is_empty (c ∷ cs) = false

unfoldable pub safe_tuple_token : Chars → Bool
safe_tuple_token token =
    if is_empty token || contains_any is_separator token
    then false
    else not (contains_any is_space token || contains_any is_control token)

pub record Identifier : Type 0 where
  pub object_type : Chars
  pub id : Chars

abbrev pub type_user : Chars
type_user = characters "user"

abbrev pub type_stack : Chars
type_stack = characters "stack"

abbrev pub type_platform : Chars
type_platform = characters "platform"

abbrev pub platform_id : Chars
platform_id = characters "openplan"

unfoldable pub new_identifier : Chars → Chars → Checked Identifier
new_identifier object_type id = do
  guard (not (is_empty object_type || not (safe_tuple_token object_type))) AuthError.invalid_input
  guard (safe_tuple_token id) AuthError.invalid_input
  ok (record { object_type = object_type; id = id })

unfoldable pub string_of : Identifier → Chars
string_of ident = if is_empty ident.object_type then [] else ident.object_type ++ colon ∷ ident.id

unfoldable pub identifier_valid : Identifier → Bool
identifier_valid ident =
    not (is_empty ident.object_type)
    && safe_tuple_token ident.object_type
    && safe_tuple_token ident.id

pub record Subject : Type 0 where
  pub identifier : Identifier

pub record Object : Type 0 where
  pub identifier : Identifier

-- The types that may occupy the user slot of a tuple.
unfoldable pub subject_types : Chars → Bool
subject_types t = same_chars t type_user || same_chars t type_platform

unfoldable pub subject_from_oidc_sub : Chars → Checked Subject
subject_from_oidc_sub sub = do
  ident ← new_identifier type_user sub
  ok (record { identifier = ident })

unfoldable pub subject_valid : Subject → Bool
subject_valid subject =
    identifier_valid subject.identifier && subject_types subject.identifier.object_type

unfoldable pub object_from_id : Chars → Chars → Checked Object
object_from_id object_type id = do
  ident ← new_identifier object_type id
  ok (record { identifier = ident })

unfoldable pub object_valid : Object → Bool
object_valid object = identifier_valid object.identifier

-- `Platform` and `PlatformSubject`; the checks of mustObject and mustSubject hold of these texts.
abbrev pub platform : Object
platform = record { identifier = record { object_type = type_platform; id = platform_id } }

abbrev pub platform_subject : Subject
platform_subject = record { identifier = record { object_type = type_platform; id = platform_id } }
